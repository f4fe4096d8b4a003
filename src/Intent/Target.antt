-- ===== src/Intent/Target.antt =====
-- intent/parser.go: the clusters and the node that a message names. `longest_first` is the call of
-- sort.Slice that puts longer names before shorter ones.
use storage_bot.Base.{
  ℕ, Bool, not, ◌&&◌, ◌||◌, List, [], ◌∷◌, ◌++◌, Text, lit, if◌then◌else◌, Option, none, some,
  has_prefix, contains, to_lower, is_letter, is_digit, ◌==◌, any, keep, reverse, text_eq, map,
  fields, trim_space, cut,
}
use storage_bot.Regex.{Re, empty, one, many, seq, alt, group, find, Found, group_of}
use storage_bot.Security.Patterns.{either_case}
use storage_bot.Intent.Words.{contains_word, is_numeric}

abbrev is_blank : ℕ → Bool
is_blank c = c == 9 || c == 10 || c == 12 || c == 13 || c == 32

unfoldable pub cluster_name_re : Re
cluster_name_re = seq (either_case (lit "cluster")) (
    seq (alt (one (λ c. c == b'-' || c == b' ' || c == b'_')) empty)
      (group 1 (seq (one (λ c. not (is_blank c))) (many (λ c. not (is_blank c))))))

-- strings.FieldsFunc at `-` and `_`.
close_part : Text → List Text → List Text
close_part [] rest = rest
close_part (c ∷ cur) rest = reverse (c ∷ cur) ∷ rest

parts_from : Text → Text → List Text
unfolding close_part
parts_from cur [] = close_part cur []
parts_from cur (c ∷ s) =
    let closed = close_part cur (parts_from [] s) in
    let further = parts_from (c ∷ cur) s in if c == b'-' || c == b'_' then closed else further

unfoldable pub name_parts : Text → List Text
unfolding parts_from
name_parts name = parts_from [] name

-- The first name that stands in the message as a word.
unfoldable pub first_word : Text → List Text → Option Text
first_word lower [] = none
first_word lower (n ∷ ns) =
    let later = first_word lower ns in if contains_word lower (to_lower n) then some n else later

-- The first name with a numeric part that stands anywhere in the message.
unfoldable pub first_number : Text → List Text → Option Text
first_number lower [] = none
first_number lower (n ∷ ns) =
    let later = first_number lower ns in
    if any (λ part. is_numeric part && contains lower part) (name_parts n) then some n else later

after_cluster : Option Found → Text
after_cluster none = []
after_cluster (some f) = group_of 1 f.groups

numbered : Text → Option Text → Text
unfolding after_cluster
numbered lower (some n) = n
numbered lower none = after_cluster (find cluster_name_re lower)

worded : Text → List Text → Option Text → Text
unfolding numbered
worded lower known (some n) = n
worded lower known none = numbered lower (first_number lower known)

unfoldable pub extract_cluster_name : (List Text → List Text) → Text → List Text → Text
unfolding worded
extract_cluster_name longest_first lower known =
    worded lower known (first_word lower (longest_first known))

unfoldable pub matching : Text → List Text → List Text
matching tok known = keep (λ name. contains (to_lower name) tok) known

excluded_by : List Text → List Text → List Text
excluded_by known [] = []
excluded_by known (tok ∷ toks) = matching tok known ++ excluded_by known toks

-- The names behind the first of the three words that the message contains.
excludes_at : List Text → List Text → Text → List Text
unfolding excluded_by
excludes_at known [] lower = []
excludes_at known (sep ∷ seps) lower =
    let later = excludes_at known seps lower in
    elim (cut lower sep) [
      | none ↦ later
      | some (before, rest) ↦ excluded_by known (fields (trim_space rest))
    ]

unfoldable pub excludes_of : Text → List Text → List Text
unfolding excludes_at
excludes_of lower known = excludes_at known (map lit ("except" ∷ "排除" ∷ "除了" ∷ [])) lower

unfoldable pub says_all : Text → Bool
says_all lower = any (λ kw. contains lower (lit kw)) ("all" ∷ "所有" ∷ "全部" ∷ [])

-- The first token that some known name contains decides.
on_matches : Text → List Text → Text → Text
on_matches tok [] later = later
on_matches tok (n ∷ []) later = n
on_matches tok (n ∷ m ∷ ns) later = tok ++ lit "*"

by_tokens : List Text → Text → List Text → Text
unfolding on_matches
by_tokens known other [] = other
by_tokens known other (tok ∷ toks) =
    on_matches tok (matching tok known) (by_tokens known other toks)

unfoldable pub extract_cluster_target :
    (List Text → List Text) → Text → List Text → Text × List Text
unfolding by_tokens
extract_cluster_target longest_first lower known =
    if says_all lower
    then (lit "all", excludes_of lower known)
    else (by_tokens known (extract_cluster_name longest_first lower known) (fields lower), [])

-- A token with the shape of a host name.
unfoldable pub is_host_shaped : Text → Bool
is_host_shaped tok =
    contains tok (lit "-")
    || contains tok (lit "_")
    || not (any (λ c. not (is_letter c || is_digit c)) tok) && any is_letter tok && any is_digit tok

is_skipped : List Text → Text → Bool
is_skipped known tok =
    any (λ c. text_eq (to_lower c) tok) known
    || has_prefix tok (lit "--")
    || any (λ p. has_prefix tok (lit p)) ("eth" ∷ "ens" ∷ "bond" ∷ "lo" ∷ "wlan" ∷ [])

first_host : List Text → List Text → Text
unfolding is_skipped
first_host known [] = []
first_host known (tok ∷ toks) =
    let later = first_host known toks in
    if not (is_skipped known tok) && is_host_shaped tok then tok else later

unfoldable pub extract_node_name : Text → List Text → Text
unfolding first_host
extract_node_name lower known = first_host known (fields lower)
