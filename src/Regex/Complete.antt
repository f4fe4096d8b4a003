-- ===== src/Regex/Complete.antt =====
-- Every word that the expression means is found by the matcher.
use storage_bot.Base.{
  ℕ, ◌≡◌, refl, ap, subst, inl, inr, true, List, [], ◌∷◌, ◌++◌, append_assoc, Text, In, All, length,
  take, ◌-◌, Bool-cases,
}
use storage_bot.Regex.{
  Class, Re, empty, word_edge, line_begin, line_end, text_begin, text_end, one, many, seq, alt,
  group, Place, holds, run_many, run_one, run_each, capture, check, run,
}
use storage_bot.Regex.Meaning.{back, Means, back-append, In-append}

abbrev place : Text → Text → List (ℕ × Text) → Place
place b a g = record { before = b; after = a; groups = g }

-- The first place that a class taken often offers is where it stops at once.
run_many_stay : (c : Class) (b a : Text) (g : List (ℕ × Text)) → In (place b a g) (run_many c b a g)
unfolding run_many
run_many_stay c b [] g = inl refl
run_many_stay c b (x ∷ a) g = elim (Bool-cases (c x)) [
  | inl go ↦ rw go ((In-append (place b (x ∷ a) g) (run_many c (x ∷ b) a g) _).1 (inr (inl refl)))
  | inr stop ↦ rw stop (inl refl)
]

run_many_complete :
    (c : Class) (b w a : Text) (g : List (ℕ × Text))
    → All (λ x. c x ≡ true) w
    → In (place (back w b) a g) (run_many c b (w ++ a) g)
unfolding run_many
run_many_complete c b [] a g h = run_many_stay c b a g
run_many_complete c b (x ∷ w) a g (t, h) = rw t (
    (In-append (place (back w (x ∷ b)) a g) (run_many c (x ∷ b) (w ++ a) g) _).1
      (inl (run_many_complete c (x ∷ b) w a g h)))

In-run_each :
    (q p : Place) (f : Place → List Place) (ps : List Place)
    → In p ps
    → In q (f p)
    → In q (run_each f ps)
unfolding run_each
In-run_each q p f [] m n = absurd m
In-run_each q p f (o ∷ ps) (inl e) n =
    (In-append q (f o) (run_each f ps)).1 (inl (subst (λ y. In q (f y)) e n))
In-run_each q p f (o ∷ ps) (inr m) n =
    (In-append q (f o) (run_each f ps)).1 (inr (In-run_each q p f ps m n))

In-capture :
    (n : ℕ) (p : Place) (b a : Text) (g : List (ℕ × Text)) (qs : List Place)
    → In (place b a g) qs
    → (g' : List (ℕ × Text)) × In (place b a g') (capture n p qs)
unfolding capture
In-capture n p b a g [] h = absurd h
In-capture n p b a g (o ∷ qs) (inl e) = (
  _,
  inl (
      ap
        (λ (y : Place). record y {
          groups = (n, take (length p.after - length y.after) p.after) ∷ y.groups;
        })
        e),
)
In-capture n p b a g (o ∷ qs) (inr h) = let (g', m) = In-capture n p b a g qs h in (g', inr m)

check_complete :
    (r : Re) (b w a : Text) (g : List (ℕ × Text))
    → (w ≡ []) × (holds r b a ≡ true)
    → In (place (back w b) a g) (check r (place b (w ++ a) g))
unfolding check
check_complete r b w a g (e, h) = rw e (rw h (inl refl))

pub run_complete :
    (r : Re) (b w a : Text) (g : List (ℕ × Text))
    → Means r b w a
    → (g' : List (ℕ × Text)) × In (place (back w b) a g') (run r (place b (w ++ a) g))
unfolding run
run_complete empty b w a g e = (g, rw e (inl refl))
run_complete word_edge b w a g h = (g, check_complete word_edge b w a g h)
run_complete line_begin b w a g h = (g, check_complete line_begin b w a g h)
run_complete line_end b w a g h = (g, check_complete line_end b w a g h)
run_complete text_begin b w a g h = (g, check_complete text_begin b w a g h)
run_complete text_end b w a g h = (g, check_complete text_end b w a g h)
run_complete (one c) b w a g (x, e, t) = (g, rw e (unfold run_one in rw t (inl refl)))
run_complete (many c) b w a g h = (g, run_many_complete c b w a g h)
run_complete (seq r s) b w a g (u, v, e, m, n) =
    let (g1, i) = run_complete r b u (v ++ a) g m in
    let (g2, j) = run_complete s (back u b) v a g1 n in
    (
      g2,
      rw (e, append_assoc u v a, back-append u v b)
          (In-run_each (place (back v (back u b)) a g2) (place (back u b) (v ++ a) g1) (run s)
            (run r (place b (u ++ (v ++ a)) g)) i j),
    )
run_complete (alt r s) b w a g (inl m) =
    let (g', i) = run_complete r b w a g m in (g', (In-append _ (run r _) (run s _)).1 (inl i))
run_complete (alt r s) b w a g (inr m) =
    let (g', i) = run_complete s b w a g m in (g', (In-append _ (run r _) (run s _)).1 (inr i))
run_complete (group n r) b w a g m =
    let (g', i) = run_complete r b w a g m in
    In-capture n (place b (w ++ a) g) (back w b) a g' (run r (place b (w ++ a) g)) i
