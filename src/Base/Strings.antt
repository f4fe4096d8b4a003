-- ===== src/Base/Strings.antt =====
-- Texts as Go has them: sequences of bytes. The functions of package strings that the program calls.
-- `to_lower` is the ASCII part of strings.ToLower: bytes from 128 up stay as they are.
use Prim.Native.Nat.{ℕ, suc, ◌+◌, ◌/◌, ◌%◌}
use Prim.Native.Char.{code}
use Prim.Native.String.{String}
use mathlib.Core.Path.{◌≡◌, refl}
use mathlib.Core.Logic.{◌↔◌}
use mathlib.Core.Bool.{Bool, true, false, ◌&&◌, ◌||◌}
use mathlib.Core.List.{List, [], ◌∷◌, ◌++◌, map, reverse}
use mathlib.Core.Option.{Option, none, some}
use native.Mathlib.Omega.{arith}
use storage_bot.Base.Tests.{ltb, leb, ◌==◌, if◌then◌else◌}
use storage_bot.Base.Lists.{length, drop}

abbrev pub Text : Type 0
Text = List ℕ

-- The UTF-8 bytes of a code point.
utf8 : ℕ → Text
utf8 c =
    if ltb c 0x80
    then c ∷ []
    else if ltb c 0x800
    then (0xc0 + c / 64) ∷ (0x80 + c % 64) ∷ []
    else if ltb c 0x10000
    then (0xe0 + c / 4096) ∷ (0x80 + c / 64 % 64) ∷ (0x80 + c % 64) ∷ []
    else (0xf0 + c / 262144) ∷ (0x80 + c / 4096 % 64) ∷ (0x80 + c / 64 % 64) ∷ (0x80 + c % 64) ∷ []

-- The bytes of a literal of the source.
unfoldable pub lit : String → Text
unfolding utf8
lit String.[] = []
lit (String.◌∷◌ c s) = utf8 (code c) ++ lit s

unfoldable pub text_eq : Text → Text → Bool
text_eq [] [] = true
text_eq [] (_ ∷ _) = false
text_eq (_ ∷ _) [] = false
text_eq (a ∷ s) (b ∷ t) = a == b && text_eq s t

pub text_eq_iff : (s t : Text) → (text_eq s t ≡ true) ↔ (s ≡ t)
unfolding text_eq
text_eq_iff [] [] = (λ _. refl, λ _. refl)
text_eq_iff [] (b ∷ t) = (λ h. cc, λ h. cc)
text_eq_iff (a ∷ s) [] = (λ h. cc, λ h. cc)
text_eq_iff (a ∷ s) (b ∷ t) =
    (λ h. ground (arith, (text_eq_iff s t).0), λ h. ground (arith, (text_eq_iff s t).1))

pub text_eq_refl : (s : Text) → text_eq s s ≡ true
text_eq_refl s = (text_eq_iff s s).1 refl

unfoldable pub has_prefix : Text → Text → Bool
has_prefix s [] = true
has_prefix [] (_ ∷ _) = false
has_prefix (a ∷ s) (b ∷ p) = a == b && has_prefix s p

unfoldable pub trim_prefix : Text → Text → Text
trim_prefix s p = if has_prefix s p then drop (length p) s else s

unfoldable pub has_suffix : Text → Text → Bool
unfolding has_prefix
has_suffix s p = has_prefix (reverse s) (reverse p)

unfoldable pub trim_suffix : Text → Text → Text
unfolding has_suffix
trim_suffix s p = if has_suffix s p then reverse (drop (length p) (reverse s)) else s

unfoldable pub contains : Text → Text → Bool
unfolding has_prefix
contains [] p = has_prefix [] p
contains (a ∷ s) p = has_prefix (a ∷ s) p || contains s p

-- strings.Index, -1 as `none`.
unfoldable pub index : Text → Text → Option ℕ
unfolding has_prefix
index [] p = if has_prefix [] p then some 0 else none
index (a ∷ s) p =
    let later : Option ℕ = elim (index s p) [ none ↦ none | some i ↦ some (suc i) ] in
    if has_prefix (a ∷ s) p then some 0 else later

-- strings.Cut, with `none` where the separator is missing.
unfoldable pub cut : Text → Text → Option (Text × Text)
unfolding has_prefix
cut [] sep = if has_prefix [] sep then some ([], []) else none
cut (a ∷ s) sep =
    let later : Option (Text × Text) = elim (cut s sep) [
      | none ↦ none
      | some (x, y) ↦ some (a ∷ x, y)
    ] in
    if has_prefix (a ∷ s) sep then some ([], drop (length sep) (a ∷ s)) else later

-- strings.Split at one byte.
unfoldable pub split_at : ℕ → Text → Text → List Text
split_at b cur [] = reverse cur ∷ []
split_at b cur (a ∷ s) = elim (a == b) [
  | true ↦ reverse cur ∷ split_at b [] s
  | false ↦ split_at b (a ∷ cur) s
]

unfoldable pub lines : Text → List Text
unfolding split_at
lines s = split_at b'\n' [] s

unfoldable pub join : List Text → Text → Text
join [] sep = []
join (s ∷ []) sep = s
join (s ∷ t ∷ ts) sep = s ++ (sep ++ join (t ∷ ts) sep)

abbrev pub is_upper : ℕ → Bool
is_upper c = leb b'A' c && leb c b'Z'

unfoldable pub lower_byte : ℕ → ℕ
lower_byte c = if is_upper c then c + 32 else c

unfoldable pub to_lower : Text → Text
unfolding lower_byte
to_lower s = map lower_byte s

abbrev pub is_digit : ℕ → Bool
is_digit c = leb b'0' c && leb c b'9'

abbrev pub is_letter : ℕ → Bool
is_letter c = leb b'a' c && leb c b'z' || is_upper c

-- Texts one after the other.
abbrev pub cat : List Text → Text
cat [] = []
cat (s ∷ ss) = s ++ cat ss

-- The ideographic space.
abbrev pub wide_space : Text
wide_space = 227 ∷ 128 ∷ 128 ∷ []

-- The character U+FE0F, which asks for the coloured form of the sign before it.
abbrev pub emoji_style : Text
emoji_style = 0xef ∷ 0xb8 ∷ 0x8f ∷ []

-- strings.TrimRight at one byte.
drop_front : ℕ → Text → Text
drop_front b [] = []
drop_front b (a ∷ s) = let rest = drop_front b s in if a == b then rest else a ∷ s

unfoldable pub trim_right_byte : ℕ → Text → Text
unfolding drop_front
trim_right_byte b s = reverse (drop_front b (reverse s))

-- strings.EqualFold, in ASCII.
unfoldable pub equal_fold : Text → Text → Bool
unfolding text_eq to_lower
equal_fold s t = text_eq (to_lower s) (to_lower t)
