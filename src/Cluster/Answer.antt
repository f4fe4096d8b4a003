-- ===== src/Cluster/Answer.antt =====
-- The cluster that a lookup finds.
use storage_bot.Base.{
  ◌≡◌, ◌⊎◌, refl, sym, ap, ◌∙◌, inl, inr, true, false, Bool-cases, List, [], ◌∷◌, Text, text_eq,
  text_eq_iff, contains, to_lower, trim_space, Option, none, some, In, subst,
}
use storage_bot.Cluster.{
  get, matches_of, Lookup, found, no_match, ambiguous, one_match, by_matches, by_exact,
  find_by_prefix,
}

-- The name has the key in it, in lower case.
abbrev pub Holds : Text → Text → Type 0
Holds key n = contains (to_lower n) key ≡ true

matches_of_nil : (C : Type 0) (key : Text) → matches_of {C = C} [] key ≡ []
unfolding matches_of
matches_of_nil C key = refl

module _ {C : Type 0} where
  -- The names of the clusters.
  abbrev pub names : List (Text × C) → List Text
  names [] = []
  names ((k, c) ∷ m) = k ∷ names m

  matches_of_in :
      (m : List (Text × C)) (key k : Text) (c : C)
      → contains (to_lower k) key ≡ true
      → matches_of ((k, c) ∷ m) key ≡ k ∷ matches_of m key
  unfolding matches_of
  matches_of_in m key k c e = rw e refl

  matches_of_out :
      (m : List (Text × C)) (key k : Text) (c : C)
      → contains (to_lower k) key ≡ false
      → matches_of ((k, c) ∷ m) key ≡ matches_of m key
  unfolding matches_of
  matches_of_out m key k c e = rw e refl

  -- What is matched is a name that holds the key.
  matches_of_sound :
      (m : List (Text × C)) (key n : Text) → In n (matches_of m key) → In n (names m) × Holds key n
  matches_of_sound [] key n h = absurd (subst (In n) (matches_of_nil C key) h)
  matches_of_sound ((k, c) ∷ m) key n h = elim (Bool-cases (contains (to_lower k) key)) [
    | inl e ↦ elim (subst (In n) (matches_of_in m key k c e) h) [
      | inl p ↦ (inl p, ap (λ t. contains (to_lower t) key) p ∙ e)
      | inr q ↦ let (a, b) = matches_of_sound m key n q in (inr a, b)
    ]
    | inr e ↦
        let (a, b) = matches_of_sound m key n (subst (In n) (matches_of_out m key k c e) h) in
        (inr a, b)
  ]

  -- Every name that holds the key is matched.
  matches_of_complete :
      (m : List (Text × C)) (key n : Text) → In n (names m) → Holds key n → In n (matches_of m key)
  matches_of_complete [] key n h o = absurd h
  matches_of_complete ((k, c) ∷ m) key n h o = elim (Bool-cases (contains (to_lower k) key)) [
    | inl e ↦
        subst (In n) (sym (matches_of_in m key k c e))
          (elim h [ inl p ↦ inl p | inr q ↦ inr (matches_of_complete m key n q o) ])
    | inr e ↦ subst (In n) (sym (matches_of_out m key k c e)) (elim h [
      | inl p ↦ let w = ap (λ t. contains (to_lower t) key) p in absurd (differ (sym o ∙ w ∙ e))
      | inr q ↦ matches_of_complete m key n q o
    ])
  ]
    where
      differ : ¬ (true ≡ false)
      differ p = cc

  get-names : (m : List (Text × C)) (n : Text) → In n (names m) → (c : C) × (get m n ≡ some c)
  unfolding get
  get-names [] n h = absurd h
  get-names ((k, c) ∷ m) n h = elim (Bool-cases (text_eq k n)) [
    | inl e ↦ (c, rw e refl)
    | inr e ↦ elim h [
      | inl p ↦ (c, rw ((text_eq_iff k n).1 (sym p)) refl)
      | inr q ↦ let (d, r) = get-names m n q in (d, rw e r)
    ]
  ]

  -- The answer to a key. A cluster is found that is configured, and has the key for its name or is the
  -- only one, where none has, whose name holds the key. Nothing is found only if no name is the key or
  -- holds it. The answer is ambiguous only if none has the key for its name, and then it lists the
  -- names that hold it, two at least.
  abbrev pub Answers : List (Text × C) → Text → Lookup C → Type 0
  Answers m key (found n c) =
      (get m n ≡ some c)
      × ((n ≡ key)
          ⊎ ((get m key ≡ none)
              × Holds key n
              × ((x : Text) → In x (names m) → Holds key x → x ≡ n)))
  Answers m key no_match = (get m key ≡ none) × ((x : Text) → In x (names m) → ¬ Holds key x)
  Answers m key (ambiguous ns) =
      (get m key ≡ none)
      × ((n1 : Text) × (n2 : Text) × (rest : List Text) × (ns ≡ n1 ∷ n2 ∷ rest))
      × ((x : Text) → In x ns → In x (names m) × Holds key x)
      × ((x : Text) → In x (names m) → Holds key x → In x ns)

  by_matches-Answers :
      (m : List (Text × C)) (key : Text) (ns : List Text)
      → get m key ≡ none
      → matches_of m key ≡ ns
      → Answers m key (by_matches m ns)
  unfolding by_matches one_match
  by_matches-Answers m key [] g e = (g, λ x i o. subst (In x) e (matches_of_complete m key x i o))
  by_matches-Answers m key (n ∷ []) g e =
      let (i, o) = matches_of_sound m key n (subst (In n) (sym e) (inl refl)) in
      let (c, p) = get-names m n i in
      rw p (
        p,
        inr (
          g,
          o,
          λ x j w. elim (subst (In x) e (matches_of_complete m key x j w)) [
            | inl q ↦ q
            | inr z ↦ absurd z
          ],
        ),
      )
  by_matches-Answers m key (n ∷ n2 ∷ ns) g e = (
    g,
    (n, n2, ns, refl),
    λ x h. matches_of_sound m key x (subst (In x) (sym e) h),
    λ x i o. subst (In x) e (matches_of_complete m key x i o),
  )

  by_exact-Answers :
      (m : List (Text × C)) (key : Text) (o : Option C)
      → get m key ≡ o
      → Answers m key (by_exact m key o)
  unfolding by_exact
  by_exact-Answers m key (some c) e = (e, inl refl)
  by_exact-Answers m key none e = by_matches-Answers m key (matches_of m key) e refl

  -- FindByPrefix answers for its argument in lower case, with no white space at the ends: it finds the
  -- cluster of that very name, or else the only one whose name, in lower case, contains it; it fails
  -- with no match only where there is none, and as ambiguous only with all of several such names.
  pub find_by_prefix-Answers :
      (m : List (Text × C)) (input : Text)
      → Answers m (trim_space (to_lower input)) (find_by_prefix m input)
  unfolding find_by_prefix
  find_by_prefix-Answers m input =
      by_exact-Answers m (trim_space (to_lower input)) (get m (trim_space (to_lower input))) refl
