-- ===== src/Base/Check.antt =====
-- Runs of the text functions on small inputs.
use mathlib.Core.Path.{◌≡◌, refl}
use mathlib.Core.Bool.{true}
use mathlib.Core.List.{[], ◌∷◌}
use mathlib.Core.Option.{some}
use storage_bot.Base.Strings.{lit, contains, index, cut, lines, to_lower}
use storage_bot.Base.Space.{trim_space, fields}

trim_both : trim_space (lit " \ta b\u{3000}") ≡ lit "a b"
unfolding trim_space lit
trim_both = refl

fields_two : fields (lit " a\u{3000}bc ") ≡ lit "a" ∷ lit "bc" ∷ []
unfolding fields lit
fields_two = refl

contains_inner : contains (lit "集群巡检项") (lit "巡检") ≡ true
unfolding contains lit
contains_inner = refl

index_first : index (lit "abab") (lit "ba") ≡ some 1
unfolding index lit
index_first = refl

cut_first : cut (lit "a:b:c") (lit ":") ≡ some (lit "a", lit "b:c")
unfolding cut lit
cut_first = refl

lines_two : lines (lit "a\n\n") ≡ lit "a" ∷ [] ∷ [] ∷ []
unfolding lines lit
lines_two = refl

lower_ascii : to_lower (lit "OSD-1 集") ≡ lit "osd-1 集"
unfolding to_lower lit
lower_ascii = refl
