-- ===== src/Base/Space.antt =====
-- White space as package strings sees it, on bytes: the ASCII spaces and the UTF-8 encodings of the
-- other space characters of Unicode. strings.TrimSpace and strings.Fields.
use Prim.Native.Nat.{ℕ, zero, suc}
use mathlib.Core.Bool.{Bool, ◌&&◌, ◌||◌}
use mathlib.Core.List.{List, [], ◌∷◌, reverse}
use storage_bot.Base.Tests.{leb, ◌==◌, if◌then◌else◌}
use storage_bot.Base.Strings.{Text}

abbrev pub ascii_space : ℕ → Bool
ascii_space c = c == b' ' || leb 9 c && leb c 13

-- U+0085 and U+00A0.
space_2 : ℕ → ℕ → Bool
space_2 a b = a == 0xc2 && (b == 0x85 || b == 0xa0)

-- U+1680, U+2000 to U+200A, U+2028, U+2029, U+202F, U+205F and U+3000.
space_3 : ℕ → ℕ → ℕ → Bool
space_3 a b c =
    a == 0xe1 && b == 0x9a && c == 0x80
    || a == 0xe2 && b == 0x80 && (leb 0x80 c && leb c 0x8a || c == 0xa8 || c == 0xa9 || c == 0xaf)
    || a == 0xe2 && b == 0x81 && c == 0x9f
    || a == 0xe3 && b == 0x80 && c == 0x80

-- How many bytes the space character at the head takes, 0 if there is none there.
space_len : Text → ℕ
unfolding space_2 space_3
space_len [] = 0
space_len (a ∷ []) = if ascii_space a then 1 else 0
space_len (a ∷ b ∷ []) = if ascii_space a then 1 else if space_2 a b then 2 else 0
space_len (a ∷ b ∷ c ∷ s) =
    if ascii_space a then 1 else if space_2 a b then 2 else if space_3 a b c then 3 else 0

-- The same at the end of a text that is read backwards.
space_len_back : Text → ℕ
unfolding space_2 space_3
space_len_back [] = 0
space_len_back (c ∷ []) = if ascii_space c then 1 else 0
space_len_back (c ∷ b ∷ []) = if ascii_space c then 1 else if space_2 b c then 2 else 0
space_len_back (c ∷ b ∷ a ∷ s) =
    if ascii_space c then 1 else if space_2 b c then 2 else if space_3 a b c then 3 else 0

-- The number counts the bytes of a space character that are still to be dropped.
trim_by : (Text → ℕ) → ℕ → Text → Text
trim_by width n [] = []
trim_by width (suc n) (a ∷ s) = trim_by width n s
trim_by width zero (a ∷ s) = elim (width (a ∷ s)) [ zero ↦ a ∷ s | suc n ↦ trim_by width n s ]

unfoldable pub trim_space : Text → Text
unfolding trim_by space_len space_len_back
trim_space s = reverse (trim_by space_len_back 0 (reverse (trim_by space_len 0 s)))

close : Text → List Text → List Text
close [] rest = rest
close (a ∷ cur) rest = reverse (a ∷ cur) ∷ rest

fields_from : Text → ℕ → Text → List Text
unfolding close space_len
fields_from cur n [] = close cur []
fields_from cur (suc n) (a ∷ s) = fields_from cur n s
fields_from cur zero (a ∷ s) = elim (space_len (a ∷ s)) [
  | zero ↦ fields_from (a ∷ cur) 0 s
  | suc n ↦ close cur (fields_from [] n s)
]

unfoldable pub fields : Text → List Text
unfolding fields_from
fields s = fields_from [] 0 s
