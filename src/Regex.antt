-- ===== src/Regex.antt =====
-- The part of Go's package regexp that the program's patterns use, on bytes. Every repetition of the
-- patterns is a greedy one of a class, so matching is by recursion on the expression. The choices
-- come in Go's order, so the first one is the leftmost-first match.
pub mod Meaning
pub mod Sound
pub mod Search
pub mod Complete
use storage_bot.Base.{
  ℕ, zero, suc, ◌-◌, Bool, true, false, not, ◌&&◌, ◌||◌, Option, none, some, List, [], ◌∷◌, ◌++◌,
  Text, length, take, ◌==◌, leb, if◌then◌else◌, is_digit, is_letter, is_upper,
}

abbrev pub Class : Type 0
Class = ℕ → Bool

pub data Re : Type 0 where
  empty word_edge line_begin line_end text_begin text_end : Re
  one many : Class → Re
  seq alt : Re → Re → Re
  group : ℕ → Re → Re

-- Where the matcher stands: the bytes read, the last one first, the bytes ahead, and what the groups
-- have captured, the last one first.
pub record Place : Type 0 where
  pub before : Text
  pub after : Text
  pub groups : List (ℕ × Text)

abbrev pub is_word : ℕ → Bool
is_word c = is_letter c || is_digit c || c == b'_'

abbrev word_at : Text → Bool
word_at [] = false
word_at (c ∷ s) = is_word c

abbrev differ : Bool → Bool → Bool
differ true b = not b
differ false b = b

abbrev at_newline : Text → Bool
at_newline [] = true
at_newline (c ∷ s) = c == b'\n'

abbrev is_nil : Text → Bool
is_nil [] = true
is_nil (c ∷ s) = false

-- The assertions, by the bytes before and after.
abbrev pub holds : Re → Text → Text → Bool
holds word_edge b a = differ (word_at b) (word_at a)
holds line_begin b a = at_newline b
holds line_end b a = at_newline a
holds text_begin b a = is_nil b
holds text_end b a = is_nil a
holds r b a = true

-- A class taken as often as it can be, then less often.
run_many : Class → Text → Text → List (ℕ × Text) → List Place
run_many c b [] g = record { before = b; after = []; groups = g } ∷ []
run_many c b (x ∷ s) g =
    let stay : List Place = record { before = b; after = x ∷ s; groups = g } ∷ [] in
    let more : List Place = run_many c (x ∷ b) s g ++ stay in if c x then more else stay

run_one : Class → Text → Text → List (ℕ × Text) → List Place
run_one c b [] g = []
run_one c b (x ∷ s) g = if c x then record { before = x ∷ b; after = s; groups = g } ∷ [] else []

run_each : (Place → List Place) → List Place → List Place
run_each f [] = []
run_each f (p ∷ ps) = f p ++ run_each f ps

capture : ℕ → Place → List Place → List Place
capture n p [] = []
capture n p (q ∷ qs) =
    record q { groups = (n, take (length p.after - length q.after) p.after) ∷ q.groups }
    ∷ capture n p qs

check : Re → Place → List Place
check r p = if holds r p.before p.after then p ∷ [] else []

-- All the ways to match at a place, in order of preference.
unfoldable pub run : Re → Place → List Place
unfolding run_many run_one run_each capture check
run empty p = p ∷ []
run word_edge p = check word_edge p
run line_begin p = check line_begin p
run line_end p = check line_end p
run text_begin p = check text_begin p
run text_end p = check text_end p
run (one c) p = run_one c p.before p.after p.groups
run (many c) p = run_many c p.before p.after p.groups
run (seq r s) p = run_each (run s) (run r p)
run (alt r s) p = run r p ++ run s p
run (group n r) p = capture n p (run r p)

pub record Found : Type 0 where
  pub word : Text
  pub groups : List (ℕ × Text)

abbrev head_found : Text → List Place → Option Found
head_found a [] = none
head_found a (q ∷ qs) =
    some (record { word = take (length a - length q.after) a; groups = q.groups })

-- The leftmost place with a match.
find_from : Re → Text → Text → Option Found
find_from r b [] = head_found [] (run r (record { before = b; after = []; groups = [] }))
find_from r b (x ∷ s) =
    let later = find_from r (x ∷ b) s in
    elim (head_found (x ∷ s) (run r (record { before = b; after = x ∷ s; groups = [] }))) [
      | none ↦ later
      | some f ↦ some f
    ]

-- FindStringSubmatch.
unfoldable pub find : Re → Text → Option Found
unfolding find_from run
find r s = find_from r [] s

-- MatchString.
unfoldable pub match_string : Re → Text → Bool
unfolding find
match_string r s = elim (find r s) [ none ↦ false | some f ↦ true ]

-- A group of a match, the empty text if it took no part.
unfoldable pub group_of : ℕ → List (ℕ × Text) → Text
group_of n [] = []
group_of n ((m, t) ∷ g) = if m == n then t else group_of n g
