-- ===== src/Base/Decimal.antt =====
-- strconv: Itoa, Atoi with its saturation at the ends of int64, and their round trip.
use Prim.Native.Nat.{ℕ, zero, suc, ◌+◌, ◌-◌, ◌*◌, ◌/◌, ◌%◌, ◌^◌, ◌≤◌, ◌<◌}
use mathlib.Core.Path.{◌≡◌, refl, ◌∙◌}
use mathlib.Core.Logic.{◌≢◌}
use mathlib.Core.Bool.{Bool, true, false}
use mathlib.Core.List.{[], ◌∷◌, ◌++◌, concat-ne-nil}
use native.Mathlib.Omega.{arith}
use storage_bot.Base.Tests.{ltb, leb, ◌==◌, if◌then◌else◌}
use storage_bot.Base.Strings.{Text, is_digit}
use storage_bot.Base.Int.{ℤ, pos, negsuc, sub_ℕ}

-- The fuel bounds the number of digits; `n` itself is enough.
digits : ℕ → ℕ → Text
digits zero n = (b'0' + n % 10) ∷ []
digits (suc f) n =
    let more = digits f (n / 10) ++ (b'0' + n % 10) ∷ [] in
    if ltb n 10 then (b'0' + n) ∷ [] else more

unfoldable pub itoa_ℕ : ℕ → Text
unfolding digits
itoa_ℕ n = digits n n

unfoldable pub itoa : ℤ → Text
unfolding itoa_ℕ
itoa (pos n) = itoa_ℕ n
itoa (negsuc n) = b'-' ∷ itoa_ℕ (suc n)

pub data Scan : Type 0 where
  syntax range : Scan
  value : ℕ → Scan

-- The digit loop of strconv.ParseUint in base 10: a value past 2^64 - 1 ends it at once.
unfoldable pub scan : ℕ → Text → Scan
scan acc [] = value acc
scan acc (c ∷ s) =
    let next = scan (acc * 10 + (c - b'0')) s in
    if is_digit c then if ltb (acc * 10 + (c - b'0')) (2 ^ 64) then next else range else syntax

unfoldable pub parse_uint : Text → Scan
unfolding scan
parse_uint [] = syntax
parse_uint (c ∷ s) = scan 0 (c ∷ s)

signed : Bool → Scan → ℤ × Bool
signed neg syntax = (pos 0, false)
signed false range = (pos (2 ^ 63 - 1), false)
signed true range = (negsuc (2 ^ 63 - 1), false)
signed false (value n) = if ltb n (2 ^ 63) then (pos n, true) else (pos (2 ^ 63 - 1), false)
signed true (value n) = if leb n (2 ^ 63) then (sub_ℕ 0 n, true) else (negsuc (2 ^ 63 - 1), false)

-- strconv.Atoi: the number, and whether there was no error.
unfoldable pub atoi : Text → ℤ × Bool
unfolding parse_uint signed
atoi [] = (pos 0, false)
atoi (c ∷ s) =
    if c == b'-'
    then signed true (parse_uint s)
    else if c == b'+'
    then signed false (parse_uint s)
    else signed false (parse_uint (c ∷ s))

scan_snoc :
    (s : Text) (acc n d : ℕ)
    → scan acc s ≡ value n
    → d < 10
    → n * 10 + d < 2 ^ 64
    → scan acc (s ++ (b'0' + d) ∷ []) ≡ value (n * 10 + d)
unfolding scan
scan_snoc [] acc n d h hd hn = ground arith
scan_snoc (c ∷ s) acc n d h hd hn = ground (arith, scan_snoc s (acc * 10 + (c - b'0')) n d)

scan_digit : (n : ℕ) → n < 10 → scan 0 ((b'0' + n) ∷ []) ≡ value n
unfolding scan
scan_digit n h = ground arith

scan-digits : (f n : ℕ) → n ≤ f → n < 2 ^ 64 → scan 0 (digits f n) ≡ value n
unfolding digits
scan-digits zero n h hn = unfold scan in ground arith
scan-digits (suc f) n h hn = ground (
  arith,
  scan_digit n,
  scan_snoc (digits f (n / 10)) 0 (n / 10) (n % 10)
      (scan-digits f (n / 10) (omega arith) (omega arith)),
)

-- A text whose digits scan has no sign.
atoi_of_scan : (s : Text) (n : ℕ) → s ≢ [] → scan 0 s ≡ value n → atoi s ≡ signed false (value n)
unfolding atoi scan
atoi_of_scan [] n h e = absurd (h refl)
atoi_of_scan (c ∷ s) n h e = ground arith

digits-ne-nil : (f n : ℕ) → digits f n ≢ []
unfolding digits
digits-ne-nil zero n = cc
digits-ne-nil (suc f) n = ground (arith, concat-ne-nil (b'0' + n % 10) (digits f (n / 10)))

-- What Itoa prints of a count Atoi reads back, over all counts of int64.
pub atoi-itoa : (n : ℕ) → n < 2 ^ 63 → atoi (itoa (pos n)) ≡ (pos n, true)
unfolding itoa signed
atoi-itoa n h =
    atoi_of_scan (digits n n) n (digits-ne-nil n n) (scan-digits n n (omega arith) (omega arith))
    ∙ ground arith
