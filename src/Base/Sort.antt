-- ===== src/Base/Sort.antt =====
-- Sorting texts by their bytes, as sort.Strings does; the result depends on the texts alone.
pub mod Order
use storage_bot.Base.Tests.{ltb, if◌then◌else◌}
use storage_bot.Base.Strings.{Text}
use mathlib.Core.Bool.{Bool, true, false}
use mathlib.Core.List.{List, [], ◌∷◌}

unfoldable pub text_lt : Text → Text → Bool
text_lt s [] = false
text_lt [] (d ∷ t) = true
text_lt (c ∷ s) (d ∷ t) =
    let rest = text_lt s t in if ltb c d then true else (if ltb d c then false else rest)

unfoldable pub insert : Text → List Text → List Text
insert s [] = s ∷ []
insert s (t ∷ ts) = let further = insert s ts in if text_lt t s then t ∷ further else s ∷ t ∷ ts

unfoldable pub sort_texts : List Text → List Text
sort_texts [] = []
sort_texts (s ∷ ts) = insert s (sort_texts ts)
