-- ===== src/Regex/Search.antt =====
-- The search: FindStringSubmatch finds an occurrence if there is one, and MatchString decides it.
use storage_bot.Base.{
  ℕ, ◌≡◌, refl, sym, ap, ◌∙◌, subst, inl, inr, ◌↔◌, true, none, some, List, [], ◌∷◌, ◌++◌, Text, In,
  length, take, ◌-◌, ◌≢◌, length-append, Option-cases, arith,
}
use storage_bot.Regex.{Re, Place, run, Found, head_found, find_from, find, match_string}
use storage_bot.Regex.Sound.{run_sound}
use storage_bot.Regex.Complete.{run_complete}
use storage_bot.Regex.Meaning.{back, Means, Occurs}

head_found-some :
    (a : Text) (ps : List Place) (f : Found)
    → head_found a ps ≡ some f
    → (q : Place) × In q ps × (f.word ≡ take (length a - length q.after) a)
head_found-some a [] f h = cc
head_found-some a (q ∷ ps) f h = (q, inl refl, ap (λ (y : Found). y.word) (some_inj (sym h)))
  where
    some_inj : {x y : Found} → some x ≡ some y → x ≡ y
    some_inj e = cc

head_found_ne_none : (a : Text) (ps : List Place) (q : Place) → In q ps → head_found a ps ≢ none
head_found_ne_none a [] q h = absurd h
head_found_ne_none a (p ∷ ps) q h = cc

take-append : (w a : Text) → take (length (w ++ a) - length a) (w ++ a) ≡ w
take-append w a =
    let e : length (w ++ a) - length a ≡ length w = omega (arith, length-append w a) in rw e (go w)
  where
    go : (u : Text) → take (length u) (u ++ a) ≡ u
    go [] = refl
    go (x ∷ u) = ap (◌∷◌ x) (go u)

-- A match at the head.
here_sound :
    (r : Re) (b a : Text) (f : Found)
    → head_found a (run r (record { before = b; after = a; groups = [] })) ≡ some f
    → (post : Text) × (a ≡ f.word ++ post) × Means r b f.word post
here_sound r b a f h =
    let p : Place = record { before = b; after = a; groups = [] } in
    let (q, m, word) = head_found-some a (run r p) f h in
    let (w, e, _, t) = run_sound r p q m in
    let same : f.word ≡ w =
      word ∙ ap (λ y. take (length y - length q.after) y) e ∙ take-append w q.after in
    (q.after, e ∙ ap (λ y. y ++ q.after) (sym same), subst (λ y. Means r b y q.after) (sym same) t)

find_from_sound :
    (r : Re) (b s : Text) (f : Found)
    → find_from r b s ≡ some f
    → (pre : Text) × (post : Text) × (s ≡ pre ++ (f.word ++ post))
      × Means r (back pre b) f.word post
unfolding find_from
find_from_sound r b [] f h = let (post, e, t) = here_sound r b [] f h in ([], post, e, t)
find_from_sound r b (x ∷ s) f h =
    elim (Option-cases
      (head_found (x ∷ s) (run r (record { before = b; after = x ∷ s; groups = [] })))) [
        | inl none_here ↦
            let (pre, post, e, t) =
              find_from_sound r (x ∷ b) s f (rw (none_here, find_from) at h) in
            (x ∷ pre, post, ap (◌∷◌ x) e, t)
        | inr (g, here) ↦
            let (post, e, t) = here_sound r b (x ∷ s) f (here ∙ found_here g here) in
            ([], post, e, t)
      ]
  where
    found_here :
        (g : Found)
        → head_found (x ∷ s) (run r (record { before = b; after = x ∷ s; groups = [] })) ≡ some g
        → some g ≡ some f
    found_here g here = ground arith

find_from_here :
    (r : Re) (b a : Text)
    → head_found a (run r (record { before = b; after = a; groups = [] })) ≢ none
    → find_from r b a ≢ none
unfolding find_from
find_from_here r b [] h = h
find_from_here r b (x ∷ s) h = ground arith

find_from_later :
    (r : Re) (b : Text) (x : ℕ) (s : Text)
    → find_from r (x ∷ b) s ≢ none
    → find_from r b (x ∷ s) ≢ none
unfolding find_from
find_from_later r b x s h = ground arith

find_from_complete :
    (r : Re) (b pre w post : Text)
    → Means r (back pre b) w post
    → find_from r b (pre ++ (w ++ post)) ≢ none
find_from_complete r b [] w post m =
    let (g, i) = run_complete r b w post [] m in
    find_from_here r b (w ++ post) (head_found_ne_none (w ++ post) _ _ i)
find_from_complete r b (x ∷ pre) w post m =
    find_from_later r b x (pre ++ (w ++ post)) (find_from_complete r (x ∷ b) pre w post m)

-- What FindStringSubmatch finds is a match of the expression in the text.
pub find_sound :
    (r : Re) (s : Text) (f : Found)
    → find r s ≡ some f
    → (pre : Text) × (post : Text) × (s ≡ pre ++ (f.word ++ post))
      × Means r (back pre []) f.word post
unfolding find
find_sound r s f h = find_from_sound r [] s f h

find_complete :
    (r : Re) (s pre w post : Text)
    → s ≡ pre ++ (w ++ post)
    → Means r (back pre []) w post
    → find r s ≢ none
unfolding find
find_complete r s pre w post e m = rw e (find_from_complete r [] pre w post m)

-- MatchString answers true exactly on the texts in which the expression occurs.
pub match_string_iff : (r : Re) (s : Text) → (match_string r s ≡ true) ↔ Occurs r s
unfolding match_string
match_string_iff r s = (
  λ h. elim (Option-cases (find r s)) [
    | inl e ↦ cc
    | inr (f, e) ↦ let (pre, post, e', m) = find_sound r s f e in (pre, f.word, post, e', m)
  ],
  λ (pre, w, post, e, m). elim (Option-cases (find r s)) [
    | inl k ↦ absurd (find_complete r s pre w post e m k)
    | inr (f, k) ↦ rw (k, match_string)
  ],
)
