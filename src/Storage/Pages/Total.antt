-- ===== src/Storage/Pages/Total.antt =====
-- The loop over the pages ends, whatever the server answers, as long as its totals are bounded.
use storage_bot.Base.{
  ℕ, zero, suc, ◌+◌, ◌≤◌, ◌<◌, ◌≡◌, refl, inl, inr, Bool, true, ◌&&◌, ◌||◌, List, [], ◌++◌, arith,
  Text, if◌then◌else◌, ◌==◌, length, length-append, Option, some, Bool-cases,
}
use storage_bot.Base.Int.{ℤ, pos, leb_ℤ}
use storage_bot.Base.Result.{Result, err, ok}
use storage_bot.Storage.Session.{Net, Account, Session}
use storage_bot.Storage.Pages.{Decoded, PageSpec, fetch_page, list_from, list_paginated}

-- The test on the total.
abbrev pub reached : ℤ → ℕ → Bool
reached total n = leb_ℤ total (pos 0) && leb_ℤ (pos 0) total || leb_ℤ total (pos n)

module _ {W T : Type 0} (net : Net W) (a : Account) (decode : Text → Text → Decoded T)
    (spec : PageSpec) where
  -- What one round makes of the page that was read.
  unfoldable pub round :
      ℕ → ℕ → List T → Result (List T × ℤ) × Session W → Option (Result (List T) × Session W)
  round fuel page all (err e, t) = some (err e, t)
  round fuel page all (ok (batch, total), t) =
      if reached total (length (all ++ batch))
      then some (ok (all ++ batch), t)
      else if length batch == 0
      then some (ok (all ++ batch), t)
      else list_from net a decode spec fuel (page + 1) (all ++ batch) t

  pub list_from_unrolled :
      (fuel page : ℕ) (all : List T) (s : Session W)
      → list_from net a decode spec (suc fuel) page all s
        ≡ round fuel page all (fetch_page net a decode spec page s)
  unfolding list_from
  list_from_unrolled fuel page all s = go (fetch_page net a decode spec page s)
    where
      go :
          (o : Result (List T × ℤ) × Session W)
          → (elim o.0 as (λ _. Option (Result (List T) × Session W)) [
            | err e ↦ some (err e, o.1)
            | ok (batch, total) ↦
                if reached total (length (all ++ batch))
                then some (ok (all ++ batch), o.1)
                else if length batch == 0
                then some (ok (all ++ batch), o.1)
                else list_from net a decode spec fuel (page + 1) (all ++ batch) o.1
          ])
            ≡ round fuel page all o
      go (err e, t) = unfold round in refl
      go (ok (batch, total), t) = unfold round in refl

  -- No page that the server gives has a total above the bound.
  abbrev pub TotalsWithin : ℕ → Type 0
  TotalsWithin bound =
      (page : ℕ) (s : Session W) (batch : List T) (total : ℤ)
      → (fetch_page net a decode spec page s).0 ≡ ok (batch, total)
      → leb_ℤ total (pos bound) ≡ true

  abbrev Ends : Option (Result (List T) × Session W) → Type 0
  Ends o = (r : Result (List T)) × (t : Session W) × (o ≡ some (r, t))

  round-Ends :
      (fuel page bound : ℕ) (all : List T) (o : Result (List T × ℤ) × Session W)
      → ((batch : List T) (total : ℤ) → o.0 ≡ ok (batch, total) → leb_ℤ total (pos bound) ≡ true)
      → bound ≤ fuel + length all
      → ((all' : List T) (t : Session W)
          → length all' < suc bound
          → bound < fuel + length all'
          → Ends (list_from net a decode spec fuel (page + 1) all' t))
      → Ends (round fuel page all o)
  unfolding round
  round-Ends fuel page bound all (err e, t) h k ih = (err e, t, refl)
  round-Ends fuel page bound all (ok (batch, total), t) h k ih =
      elim (Bool-cases (reached total (length (all ++ batch)))) [
        | inl stop ↦ (ok (all ++ batch), t, rw stop refl)
        | inr on ↦ elim (Bool-cases (length batch == 0)) [
          | inl stop ↦ (ok (all ++ batch), t, rw (on, stop) refl)
          | inr more ↦
              let b = h batch total refl in
              let len = length-append all batch in
              let (r, u, e) = ih (all ++ batch) t (ground arith) (ground arith) in
              (r, u, rw (on, more) e)
        ]
      ]

  list_from-Ends :
      (fuel page bound : ℕ) (all : List T) (s : Session W)
      → TotalsWithin bound
      → bound ≤ fuel + length all
      → Ends (list_from net a decode spec (suc fuel) page all s)
  list_from-Ends zero page bound all s h k = rw (list_from_unrolled zero page all s) (
      round-Ends zero page bound all (fetch_page net a decode spec page s) (h page s) k
        (λ all' t l m. absurd (omega arith)))
  list_from-Ends (suc fuel) page bound all s h k = rw (list_from_unrolled (suc fuel) page all s) (
      round-Ends (suc fuel) page bound all (fetch_page net a decode spec page s) (h page s) k
        (λ all' t l m. list_from-Ends fuel (page + 1) bound all' t h (omega arith)))

  -- listPaginated ends with a list or an error after at most one round more than the bound on the
  -- totals that the server names, whatever pages it gives.
  pub list_paginated_ends :
      (bound : ℕ) (s : Session W)
      → TotalsWithin bound
      → (r : Result (List T)) × (t : Session W) × (list_paginated net a decode spec (suc bound) s
          ≡ some (r, t))
  unfolding list_paginated
  list_paginated_ends bound s h = list_from-Ends bound 1 bound [] s h (omega arith)
