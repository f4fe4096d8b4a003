-- ===== src/Bot/Inspection/Worst.antt =====
-- The level on the card of an inspection of several clusters.
use storage_bot.Base.{
  ◌⊎◌, if_intro, ltb, ap, ℕ, ◌≡◌, ◌≤◌, refl, arith, Bool, true, false, List, [], ◌∷◌, Text, inl,
  inr,
}
use storage_bot.Base.Result.{Result, err, ok}
use storage_bot.Inspect.Level.{Level, level_ok, level_warn, level_critical, level_unknown, Report}
use storage_bot.Inspect.Render.{theme_for_level, theme_green}
use storage_bot.Inspect.Whole.Counted.{answers}
use storage_bot.Bot.Inspection.{as_int, worst_with, inspect_each}

-- Some cluster's report has this level.
unfoldable pub HasLevel : Level → List (Result Report) → Type 0
HasLevel l [] = ⊥
HasLevel l (err e ∷ rs) = HasLevel l rs
HasLevel l (ok r ∷ rs) = (r.overall ≡ l) ⊎ HasLevel l rs

top_is_unknown : (l : Level) → 3 ≤ as_int l → l ≡ level_unknown
unfolding as_int
top_is_unknown level_ok h = absurd (omega arith)
top_is_unknown level_warn h = absurd (omega arith)
top_is_unknown level_critical h = absurd (omega arith)
top_is_unknown level_unknown h = refl

worst_with-grows : (r : Result Report) (worst : Level) → as_int worst ≤ as_int (worst_with r worst)
unfolding worst_with
worst_with-grows (err e) worst = omega arith
worst_with-grows (ok r) worst =
    if_intro (λ l. as_int worst ≤ as_int l) (ltb (as_int worst) (as_int r.overall)) r.overall worst
      (λ e. ground arith) (λ e. omega arith)

worst_with-at_least :
    (r : Report) (worst : Level) → as_int r.overall ≤ as_int (worst_with (ok r) worst)
unfolding worst_with
worst_with-at_least r worst =
    if_intro (λ l. as_int r.overall ≤ as_int l) (ltb (as_int worst) (as_int r.overall)) r.overall
      worst (λ e. omega arith) (λ e. ground arith)

head_above :
    (r : Result Report) (tail : List (Result Report)) (worst final l : Level)
    → as_int (worst_with r worst) ≤ as_int final
    → (HasLevel l tail → as_int l ≤ as_int final)
    → HasLevel l (r ∷ tail)
    → as_int l ≤ as_int final
unfolding HasLevel
head_above (err e) tail worst final l g k h = k h
head_above (ok r) tail worst final l g k (inl e) =
    let same : as_int r.overall ≡ as_int l = ap as_int e in
    omega (arith, worst_with-at_least r worst)
head_above (ok r) tail worst final l g k (inr h) = k h

module _ {M : Type 0} (runs : Text → M → Result Report × M) (when : ℕ → Text) where
  -- The level goes up only.
  each_grows :
      (first : Bool) (cs : List Text) (worst : Level) (m : M)
      → as_int worst ≤ as_int (inspect_each runs when first cs worst m).0.1
  unfolding inspect_each
  each_grows first [] worst m = omega arith
  each_grows first (c ∷ cs) worst m =
      let (r, m') = runs c m in
      omega (arith, worst_with-grows r worst, each_grows false cs (worst_with r worst) m')

  each_above :
      (first : Bool) (cs : List Text) (worst : Level) (m : M) (l : Level)
      → HasLevel l (answers runs cs m)
      → as_int l ≤ as_int (inspect_each runs when first cs worst m).0.1
  unfolding inspect_each answers HasLevel
  each_above first [] worst m l h = absurd h
  each_above first (c ∷ cs) worst m l h =
      let (r, m') = runs c m in
      head_above r (answers runs cs m') worst
        (inspect_each runs when false cs (worst_with r worst) m').0.1 l
        (each_grows false cs (worst_with r worst) m')
        (each_above false cs (worst_with r worst) m' l) h

  -- If one of the inspected clusters is of unknown level, so is the whole inspection, though another
  -- cluster may be critical: its card is then green.
  pub unknown_masks :
      (cs : List Text) (m : M)
      → HasLevel level_unknown (answers runs cs m)
      → ((inspect_each runs when true cs level_ok m).0.1 ≡ level_unknown)
        × (theme_for_level (inspect_each runs when true cs level_ok m).0.1 ≡ theme_green)
  unfolding theme_for_level as_int
  unknown_masks cs m h =
      let e : (inspect_each runs when true cs level_ok m).0.1 ≡ level_unknown =
        top_is_unknown (inspect_each runs when true cs level_ok m).0.1
          (each_above true cs level_ok m level_unknown h) in
      (e, ap theme_for_level e)
