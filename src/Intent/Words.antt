-- ===== src/Intent/Words.antt =====
-- intent/parser.go: names as words of a message, and the tests on characters.
pub mod Bounded
use storage_bot.Base.{
  ℕ, zero, suc, ◌-◌, ◌++◌, Bool, true, false, not, ◌&&◌, ◌||◌, List, [], ◌∷◌, Text, lit,
  if◌then◌else◌, Option, none, some, has_prefix, contains, to_lower, is_letter, is_digit, ◌==◌,
  drop, length, any,
}

unfoldable pub is_name_char : ℕ → Bool
is_name_char c = is_letter c || is_digit c || c == b'-' || c == b'_' || c == b'.'

-- Nothing follows, or no character of a name.
pub clear_start : Text → Bool
clear_start [] = true
clear_start (c ∷ s) = not (is_name_char c)

-- The search at each place of the message; `clear` tells that no character of a name stands before.
word_from : Bool → Text → Text → Bool
unfolding clear_start
word_from clear name [] = false
word_from clear name (c ∷ s) =
    let later = word_from (not (is_name_char c)) name s in
    if clear && has_prefix (c ∷ s) name && clear_start (drop (length name) (c ∷ s))
    then true
    else later

unfoldable pub contains_word : Text → Text → Bool
unfolding word_from
contains_word s [] = false
contains_word s (c ∷ name) = word_from true (c ∷ name) s

all_chars : (ℕ → Bool) → Text → Bool
all_chars p s = not (any (λ c. not (p c)) s)

unfoldable pub is_numeric : Text → Bool
unfolding all_chars
is_numeric s = all_chars is_digit s

unfoldable pub is_alnum : Text → Bool
unfolding all_chars
is_alnum [] = false
is_alnum (c ∷ s) = all_chars (λ x. is_letter x || is_digit x) (c ∷ s)

unfoldable pub is_cluster_fragment : Text → List Text → Bool
is_cluster_fragment tok known = any (λ name. contains (to_lower name) tok) known

-- strings.ReplaceAll of a text that is not empty; `skip` counts the bytes of a hit that are to come.
replace_from : Text → Text → ℕ → Text → Text
replace_from old new skip [] = []
replace_from old new (suc n) (c ∷ s) = replace_from old new n s
replace_from old new zero (c ∷ s) =
    let hit = new ++ replace_from old new (length old - 1) s in
    let kept = c ∷ replace_from old new 0 s in if has_prefix (c ∷ s) old then hit else kept

unfoldable pub replace_all : Text → Text → Text → Text
unfolding replace_from
replace_all s old new = replace_from old new 0 s
