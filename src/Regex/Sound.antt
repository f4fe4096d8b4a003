-- ===== src/Regex/Sound.antt =====
-- Every place that the matcher reaches is reached by a word that the expression means.
use storage_bot.Base.{
  ℕ, ◌≡◌, refl, sym, ap, ◌∙◌, subst, inl, inr, true, List, [], ◌∷◌, ◌++◌, append_assoc, Text, In,
  All, Bool-cases,
}
use storage_bot.Regex.{
  Class, Re, empty, word_edge, line_begin, line_end, text_begin, text_end, one, many, seq, alt,
  group, Place, holds, run_many, run_one, run_each, capture, check, run,
}
use storage_bot.Regex.Meaning.{back, Means, Reached, back-append, In-append}

run_many_sound :
    (c : Class) (b s : Text) (g : List (ℕ × Text)) (q : Place)
    → In q (run_many c b s g)
    → (w : Text) × (s ≡ w ++ q.after) × (q.before ≡ back w b) × All (λ x. c x ≡ true) w
unfolding run_many
run_many_sound c b [] g q (inl e) =
    ([], ap (λ (p : Place). p.after) (sym e), ap (λ (p : Place). p.before) e, tt)
run_many_sound c b [] g q (inr h) = absurd h
run_many_sound c b (x ∷ s) g q h = elim (Bool-cases (c x)) [
  | inr stop ↦ elim (rw stop at h) [
    | inl e ↦ ([], ap (λ (p : Place). p.after) (sym e), ap (λ (p : Place). p.before) e, tt)
    | inr f ↦ absurd f
  ]
  | inl go ↦ elim ((In-append q (run_many c (x ∷ b) s g) _).0 (rw go at h)) [
    | inl k ↦
        let (w, e, f, a) = run_many_sound c (x ∷ b) s g q k in (x ∷ w, ap (◌∷◌ x) e, f, (go, a))
    | inr k ↦ elim k [
      | inl e ↦ ([], ap (λ (p : Place). p.after) (sym e), ap (λ (p : Place). p.before) e, tt)
      | inr f ↦ absurd f
    ]
  ]
]

run_one_sound :
    (c : Class) (b s : Text) (g : List (ℕ × Text)) (q : Place)
    → In q (run_one c b s g)
    → (x : ℕ) × (s ≡ x ∷ q.after) × (q.before ≡ x ∷ b) × (c x ≡ true)
unfolding run_one
run_one_sound c b [] g q h = absurd h
run_one_sound c b (x ∷ s) g q h = elim (Bool-cases (c x)) [
  | inr stop ↦ absurd (rw stop at h)
  | inl go ↦ elim (rw go at h) [
    | inl e ↦ (x, ap (λ (p : Place). x ∷ p.after) (sym e), ap (λ (p : Place). p.before) e, go)
    | inr f ↦ absurd f
  ]
]

check_sound :
    (r : Re) (p q : Place)
    → In q (check r p)
    → (p.after ≡ q.after) × (q.before ≡ p.before) × (holds r p.before q.after ≡ true)
unfolding check
check_sound r p q h = elim (Bool-cases (holds r p.before p.after)) [
  | inr stop ↦ absurd (rw stop at h)
  | inl go ↦ elim (rw go at h) [
    | inl e ↦
        let same : p.after ≡ q.after = ap (λ (o : Place). o.after) (sym e) in
        (same, ap (λ (o : Place). o.before) e, rw (← same) go)
    | inr f ↦ absurd f
  ]
]

In-run_each :
    (q : Place) (f : Place → List Place) (ps : List Place)
    → In q (run_each f ps)
    → (p : Place) × In p ps × In q (f p)
unfolding run_each
In-run_each q f [] h = absurd h
In-run_each q f (p ∷ ps) h = elim ((In-append q (f p) (run_each f ps)).0 h) [
  | inl k ↦ (p, inl refl, k)
  | inr k ↦ let (o, m, n) = In-run_each q f ps k in (o, inr m, n)
]

In-capture :
    (n : ℕ) (p q : Place) (qs : List Place)
    → In q (capture n p qs)
    → (o : Place) × In o qs × (q.before ≡ o.before) × (q.after ≡ o.after)
unfolding capture
In-capture n p q [] h = absurd h
In-capture n p q (o ∷ qs) (inl e) =
    (o, inl refl, ap (λ (p : Place). p.before) e, ap (λ (p : Place). p.after) e)
In-capture n p q (o ∷ qs) (inr h) = let (o', m, e, f) = In-capture n p q qs h in (o', inr m, e, f)

check-Reached :
    (r : Re) (p q : Place)
    → In q (check r p)
    → (w : Text) × (p.after ≡ w ++ q.after)
      × (q.before ≡ back w p.before)
      × ((w ≡ []) × (holds r p.before q.after ≡ true))
check-Reached r p q h = let (e, f, t) = check_sound r p q h in ([], e, f, (refl, t))

-- Two words in a row.
seq-Reached : (r s : Re) (p o q : Place) → Reached r p o → Reached s o q → Reached (seq r s) p q
seq-Reached r s p o q (u, e, f, m) (v, e', f', m') = (
  u ++ v,
  e ∙ ap (λ t. u ++ t) e' ∙ sym (append_assoc u v q.after),
  f' ∙ ap (back v) f ∙ sym (back-append u v p.before),
  (u, v, refl, subst (λ t. Means r p.before u t) e' m, subst (λ t. Means s t v q.after) f m'),
)

pub run_sound : (r : Re) (p q : Place) → In q (run r p) → Reached r p q
unfolding run
run_sound empty p q (inl e) =
    ([], ap (λ (o : Place). o.after) (sym e), ap (λ (o : Place). o.before) e, refl)
run_sound empty p q (inr h) = absurd h
run_sound word_edge p q h = check-Reached word_edge p q h
run_sound line_begin p q h = check-Reached line_begin p q h
run_sound line_end p q h = check-Reached line_end p q h
run_sound text_begin p q h = check-Reached text_begin p q h
run_sound text_end p q h = check-Reached text_end p q h
run_sound (one c) p q h =
    let (x, e, f, t) = run_one_sound c p.before p.after p.groups q h in (x ∷ [], e, f, (x, refl, t))
run_sound (many c) p q h = run_many_sound c p.before p.after p.groups q h
run_sound (seq r s) p q h =
    let (o, m, n) = In-run_each q (run s) (run r p) h in
    seq-Reached r s p o q (run_sound r p o m) (run_sound s o q n)
run_sound (alt r s) p q h = elim ((In-append q (run r p) (run s p)).0 h) [
  | inl k ↦ let (w, e, f, m) = run_sound r p q k in (w, e, f, inl m)
  | inr k ↦ let (w, e, f, m) = run_sound s p q k in (w, e, f, inr m)
]
run_sound (group n r) p q h =
    let (o, m, f, e) = In-capture n p q (run r p) h in
    let (w, e', f', t) = run_sound r p o m in
    (w, e' ∙ ap (λ y. w ++ y) (sym e), f ∙ f', subst (λ y. Means r p.before w y) (sym e) t)
