-- ===== src/Base/Search.antt =====
-- What the searches in texts decide: prefixes and inner texts.
use storage_bot.Base.Tests.{Bool-cases, ==_iff, ==_refl}
use storage_bot.Base.Strings.{Text, has_prefix, contains}
use Prim.Native.Nat.{ℕ}
use mathlib.Core.Path.{◌≡◌, refl, ap, ap₂, ◌∙◌}
use mathlib.Core.Logic.{◌↔◌, inl, inr}
use mathlib.Core.Bool.{true}
use mathlib.Core.List.{[], ◌∷◌, ◌++◌}
use native.Mathlib.Omega.{arith}

pub has_prefix_iff : (s p : Text) → (has_prefix s p ≡ true) ↔ ((rest : Text) × (s ≡ p ++ rest))
unfolding has_prefix
has_prefix_iff s [] = (λ h. (s, refl), λ h. refl)
has_prefix_iff [] (b ∷ p) = (λ h. cc, λ (rest, e). cc)
has_prefix_iff (a ∷ s) (b ∷ p) = (
  λ h.
      let (rest, e) = (has_prefix_iff s p).0 (ground arith) in
      (rest, ap₂ ◌∷◌ ((==_iff a b).0 (ground arith)) e),
  λ (rest, e).
      let k : has_prefix s p ≡ true = (has_prefix_iff s p).1 (rest, cc) in
      let j : a ≡ b = cc in rw (j, ==_refl b, k),
)

contains_of_prefix : (s p : Text) → has_prefix s p ≡ true → contains s p ≡ true
unfolding contains
contains_of_prefix [] p h = h
contains_of_prefix (a ∷ s) p h = rw h

contains_later : (a : ℕ) (s p : Text) → contains s p ≡ true → contains (a ∷ s) p ≡ true
unfolding contains
contains_later a s p h = ground arith

contains_complete : (pre p post : Text) → contains (pre ++ (p ++ post)) p ≡ true
contains_complete [] p post =
    contains_of_prefix (p ++ post) p ((has_prefix_iff (p ++ post) p).1 (post, refl))
contains_complete (a ∷ pre) p post =
    contains_later a (pre ++ (p ++ post)) p (contains_complete pre p post)

contains_sound :
    (s p : Text) → contains s p ≡ true → (pre : Text) × (post : Text) × (s ≡ pre ++ (p ++ post))
unfolding contains
contains_sound [] p h = let (rest, e) = (has_prefix_iff [] p).0 h in ([], rest, e)
contains_sound (a ∷ s) p h = elim (Bool-cases (has_prefix (a ∷ s) p)) [
  | inl k ↦ let (rest, e) = (has_prefix_iff (a ∷ s) p).0 k in ([], rest, e)
  | inr k ↦ let (pre, post, e) = contains_sound s p (ground arith) in (a ∷ pre, post, ap (◌∷◌ a) e)
]

pub contains_iff :
    (s p : Text) → (contains s p ≡ true) ↔ ((pre : Text) × (post : Text) × (s ≡ pre ++ (p ++ post)))
contains_iff s p =
    (contains_sound s p, λ (pre, post, e). ap (λ t. contains t p) e ∙ contains_complete pre p post)
