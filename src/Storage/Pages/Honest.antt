-- ===== src/Storage/Pages/Honest.antt =====
-- The loop over the pages against a server that cuts one list into pages of a hundred.
use storage_bot.Base.{
  ℕ, zero, suc, ◌+◌, ◌*◌, ◌≤◌, ◌<◌, ◌≡◌, ◌⊎◌, refl, ap, ◌∙◌, inl, inr, true, false, List, [], ◌∷◌,
  ◌++◌, arith, Text, ◌==◌, length, length-take, length-drop, take, drop, some, Bool-cases,
}
use storage_bot.Base.Int.{pos}
use storage_bot.Base.Result.{ok}
use storage_bot.Storage.Session.{Net, Account, Session}
use storage_bot.Storage.Pages.{Decoded, PageSpec, fetch_page, list_from, list_paginated}
use storage_bot.Storage.Pages.Total.{reached, round, list_from_unrolled}

take-add : {T : Type 0} (m k : ℕ) (xs : List T) → take m xs ++ take k (drop m xs) ≡ take (m + k) xs
take-add zero k xs = let e : 0 + k ≡ k = omega arith in rw e
take-add (suc m) zero [] = let e : suc m + 0 ≡ suc m = omega arith in rw e
take-add (suc m) (suc k) [] = let e : suc m + suc k ≡ suc (m + suc k) = omega arith in rw e
take-add (suc m) k (x ∷ xs) =
    let e : suc m + k ≡ suc (m + k) = omega arith in rw e (ap (◌∷◌ x) (take-add m k xs))

take_all : {T : Type 0} (k : ℕ) (xs : List T) → length xs ≤ k → take k xs ≡ xs
take_all zero [] h = refl
take_all zero (x ∷ xs) h = absurd (omega arith)
take_all (suc k) [] h = refl
take_all (suc k) (x ∷ xs) h = ap (◌∷◌ x) (take_all k xs (omega arith))

reached_within : (len n : ℕ) → reached (pos len) n ≡ true → len ≤ n
reached_within len n h = ground arith

reached_short : (len n : ℕ) → reached (pos len) n ≡ false → n < len
reached_short len n h = ground arith

not_zero : (n : ℕ) → 0 < n → (n == 0) ≡ false
not_zero n h = ground arith

module _ {W T : Type 0} (net : Net W) (a : Account) (decode : Text → Text → Decoded T)
    (spec : PageSpec) (xs : List T) where
  -- Each page that the list has, and the first one of an empty list, is answered with its hundred
  -- entries, fewer at the end, and the length of the list as the total.
  abbrev pub Serves : Type 0
  Serves =
      (n : ℕ) (s : Session W)
      → (n ≡ 0) ⊎ (100 * n < length xs)
      → (t : Session W) × (fetch_page net a decode spec (suc n) s
          ≡ (ok (take 100 (drop (100 * n) xs), pos (length xs)), t))

  round_step :
      (fuel n : ℕ) (t : Session W)
      → (100 * suc n < length xs
          → (u : Session W) × (list_from net a decode spec fuel
                (suc n + 1)
                (take (100 * suc n) xs)
                t
              ≡ some (ok xs, u)))
      → (u : Session W) × (round net a decode spec fuel
            (suc n)
            (take (100 * n) xs)
            (ok (take 100 (drop (100 * n) xs), pos (length xs)), t)
          ≡ some (ok xs, u))
  unfolding round
  round_step fuel n t more =
      let together : take (100 * n) xs ++ take 100 (drop (100 * n) xs) ≡ take (100 * suc n) xs =
        take-add (100 * n) 100 xs ∙ ap (λ k. take k xs) (omega arith) in
      let len = length-take (100 * suc n) xs in
      rw together (elim (Bool-cases (reached (pos (length xs)) (length (take (100 * suc n) xs)))) [
        | inl stop ↦
            let short = reached_within (length xs) (length (take (100 * suc n) xs)) stop in
            (t, rw (stop, take_all (100 * suc n) xs (omega arith)) refl)
        | inr on ↦
            let long = reached_short (length xs) (length (take (100 * suc n) xs)) on in
            let rest =
              not_zero (length (take 100 (drop (100 * n) xs)))
                (omega (arith, length-take 100 (drop (100 * n) xs), length-drop (100 * n) xs)) in
            let (u, e) = more (omega arith) in (u, rw (on, rest) e)
      ])

  list_from-Serves :
      (fuel n : ℕ) (s : Session W)
      → Serves
      → (n ≡ 0) ⊎ (100 * n < length xs)
      → length xs ≤ fuel + 100 * n
      → (u : Session W) × (list_from net a decode spec (suc fuel) (suc n) (take (100 * n) xs) s
          ≡ some (ok xs, u))
  list_from-Serves zero n s h w k =
      let (t, e) = h n s w in
      rw (list_from_unrolled net a decode spec zero (suc n) (take (100 * n) xs) s, e)
        (round_step zero n t (λ l. absurd (omega arith)))
  list_from-Serves (suc fuel) n s h w k =
      let (t, e) = h n s w in
      let next : suc n + 1 ≡ suc (suc n) = omega arith in
      rw (list_from_unrolled net a decode spec (suc fuel) (suc n) (take (100 * n) xs) s, e)
        (round_step (suc fuel) n t
          (λ l. rw next (list_from-Serves fuel (suc n) t h (inr l) (omega arith))))

  -- Against a server that answers each page asked for with its hundred entries of one list and the
  -- list's length, listPaginated returns that list, whole and in order.
  pub list_paginated_whole :
      (s : Session W)
      → Serves
      → (u : Session W) × (list_paginated net a decode spec (suc (length xs)) s ≡ some (ok xs, u))
  unfolding list_paginated
  list_paginated_whole s h = list_from-Serves (length xs) 0 s h (inl refl) (omega arith)
