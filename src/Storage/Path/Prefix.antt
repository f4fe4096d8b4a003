-- ===== src/Storage/Path/Prefix.antt =====
-- What the prefix tests decide: they compare components, never parts of a name.
use storage_bot.Base.{
  ◌≡◌, ◌≢◌, ◌↔◌, ◌⊎◌, refl, sym, ap, ap₂, ◌∙◌, subst, inl, inr, Bool, true, false, not, ◌&&◌, List,
  [], ◌∷◌, ◌++◌, arith, Text, text_eq, text_eq_iff, has_prefix, join, All, Bool-cases, append-nil,
}
use storage_bot.Storage.Path.{
  parts, render, normalize_quota_path, rel, rel_parts, rel_text, ups, path_has_prefix,
  path_strictly_under,
}
use storage_bot.Storage.Path.Parts.{IsName}
use storage_bot.Storage.Path.Render.{
  components, components-IsName, normalize-render, parts-normalize,
}

-- The test on what Rel returns.
abbrev stays_inside : Text → Bool
stays_inside r = not (text_eq r (b'.' ∷ b'.' ∷ [])) && not (has_prefix r (b'.' ∷ b'.' ∷ b'/' ∷ []))

abbrev pub Extends : List Text → List Text → Type 0
Extends ts bs = (rest : List Text) × (ts ≡ bs ++ rest)

step_up_false : (xs : List Text) → stays_inside (rel_text ((b'.' ∷ b'.' ∷ []) ∷ xs)) ≡ false
unfolding rel_text join text_eq has_prefix
step_up_false [] = refl
step_up_false (y ∷ ys) = refl

name_true : (c : Text) → IsName c → stays_inside c ≡ true
unfolding text_eq has_prefix
name_true [] n = absurd (n.not_empty refl)
name_true (x ∷ []) n = ground arith
name_true (x ∷ y ∷ []) n = ground (arith, n.not_up)
name_true (x ∷ y ∷ z ∷ c) n = ground (arith, n.no_slash.1.1.0)

path_true : (c more : Text) → IsName c → stays_inside (c ++ b'/' ∷ more) ≡ true
unfolding text_eq has_prefix
path_true [] more n = absurd (n.not_empty refl)
path_true (x ∷ []) more n = ground arith
path_true (x ∷ y ∷ []) more n = ground (arith, n.not_up)
path_true (x ∷ y ∷ z ∷ c) more n = ground (arith, n.no_slash.1.1.0)

names_true : (cs : List Text) → All IsName cs → stays_inside (rel_text cs) ≡ true
unfolding rel_text join
names_true [] h = unfold text_eq has_prefix in refl
names_true (c ∷ []) (n, _) = name_true c n
names_true (c ∷ d ∷ cs) (n, _) = path_true c _ n

-- Rel takes no step up exactly from a base that the target extends.
rel_parts-cases :
    (bs ts : List Text)
    → ((rest : List Text) × (ts ≡ bs ++ rest) × (rel_parts bs ts ≡ rest))
      ⊎ ((xs : List Text) × (rel_parts bs ts ≡ (b'.' ∷ b'.' ∷ []) ∷ xs) × (¬ Extends ts bs))
unfolding rel_parts ups
rel_parts-cases [] ts = inl (ts, refl, refl)
rel_parts-cases (b ∷ bs) [] = inr (ups bs, refl, λ (rest, e). cc)
rel_parts-cases (b ∷ bs) (t ∷ ts) = elim (Bool-cases (text_eq b t)) [
  | inl same ↦
      let e = (text_eq_iff b t).0 same in
      elim (rel_parts-cases bs ts) [
        | inl (rest, f, g) ↦ inl (rest, ap₂ ◌∷◌ (sym e) f, rw same g)
        | inr (xs, f, g) ↦ inr (xs, rw same f, λ (rest, k). g (rest, cc))
      ]
  | inr other ↦
      inr (ups bs ++ t ∷ ts, rw other refl, λ (rest, k). let e = (text_eq_iff b t).1 (cc) in cc)
]

All-suffix : (P : Text → Type 0) (bs rest : List Text) → All P (bs ++ rest) → All P rest
All-suffix P [] rest h = h
All-suffix P (b ∷ bs) rest (_, h) = All-suffix P bs rest h

-- pathHasPrefix answers true exactly if the components of the path begin with those of the prefix.
pub path_has_prefix_iff :
    (p prefix : Text)
    → (path_has_prefix p prefix ≡ true) ↔ Extends (components p) (components prefix)
unfolding path_has_prefix rel
path_has_prefix_iff p prefix =
    rw (parts-normalize prefix, parts-normalize p)
      (elim (rel_parts-cases (components prefix) (components p)) [
        | inl (rest, e, f) ↦ (
          λ _. (rest, e),
          λ _.
              ap (λ r. stays_inside (rel_text r)) f
              ∙ names_true rest (
                  All-suffix IsName (components prefix) rest
                    (subst (All IsName) e (components-IsName p))),
        )
        | inr (xs, f, g) ↦ (
          λ h. let k = ap (λ r. stays_inside (rel_text r)) f ∙ step_up_false xs in cc,
          λ h. absurd (g h),
        )
      ])

normalize-inj :
    (p q : Text) → normalize_quota_path p ≡ normalize_quota_path q → components p ≡ components q
normalize-inj p q h = sym (parts-normalize p) ∙ ap parts h ∙ parts-normalize q

normalize-components :
    (p q : Text) → components p ≡ components q → normalize_quota_path p ≡ normalize_quota_path q
normalize-components p q h = normalize-render p ∙ ap render h ∙ sym (normalize-render q)

longer_differs : (bs : List Text) (c : Text) (rest : List Text) → bs ++ c ∷ rest ≢ bs
longer_differs [] c rest h = cc
longer_differs (b ∷ bs) c rest h = longer_differs bs c rest (cc)

-- pathStrictlyUnder answers true exactly if the path has the components of the prefix and at least
-- one more behind them.
pub path_strictly_under_iff :
    (p prefix : Text)
    → (path_strictly_under p prefix ≡ true)
      ↔ ((c : Text) × (rest : List Text) × (components p ≡ components prefix ++ c ∷ rest))
unfolding path_strictly_under
path_strictly_under_iff p prefix = (there, back)
  where
    same_eq :
        text_eq (normalize_quota_path p) (normalize_quota_path prefix) ≡ true
        → components p ≡ components prefix
    same_eq h =
        normalize-inj p prefix
          ((text_eq_iff (normalize_quota_path p) (normalize_quota_path prefix)).0 h)

    split :
        (rest : List Text)
        → components p ≡ components prefix ++ rest
        → text_eq (normalize_quota_path p) (normalize_quota_path prefix) ≡ false
        → (c : Text) × (more : List Text) × (components p ≡ components prefix ++ c ∷ more)
    split [] e h =
        let k =
          (text_eq_iff (normalize_quota_path p) (normalize_quota_path prefix)).1
            (normalize-components p prefix (e ∙ append-nil (components prefix))) in
        cc
    split (c ∷ rest) e h = (c, rest, e)

    there :
        path_strictly_under p prefix ≡ true
        → (c : Text) × (rest : List Text) × (components p ≡ components prefix ++ c ∷ rest)
    there h = elim (Bool-cases (path_has_prefix p prefix)) [
      | inl inside ↦
          let (rest, e) = (path_has_prefix_iff p prefix).0 inside in split rest e (ground arith)
      | inr outside ↦ absurd (ground arith)
    ]

    back :
        ((c : Text) × (rest : List Text) × (components p ≡ components prefix ++ c ∷ rest))
        → path_strictly_under p prefix ≡ true
    back (c, rest, e) =
        let inside = (path_has_prefix_iff p prefix).1 (c ∷ rest, e) in
        elim (Bool-cases (text_eq (normalize_quota_path p) (normalize_quota_path prefix))) [
          | inl same ↦ absurd (longer_differs (components prefix) c rest (sym e ∙ same_eq same))
          | inr other ↦ ground arith
        ]
