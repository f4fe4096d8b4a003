-- ===== src/Intent/Args.antt =====
-- intent/parser.go: the parameters of the skills in a message.
pub mod Keys
use storage_bot.Base.{
  ℕ, Bool, true, false, not, ◌&&◌, ◌||◌, List, [], ◌∷◌, ◌++◌, String, Text, lit, if◌then◌else◌,
  Option, none, some, has_prefix, contains, to_lower, is_letter, is_digit, ◌==◌, any, leb, ltb,
  length, text_eq, map, fields, trim_prefix,
}
use storage_bot.Base.Decimal.{atoi}
use storage_bot.Regex.{
  Re, empty, word_edge, text_begin, text_end, one, many, seq, group, find, match_string, Found,
  group_of,
}
use storage_bot.Security.Patterns.{either_case}
use storage_bot.Cluster.Nodes.{put}
use storage_bot.Intent.Words.{is_alnum, is_cluster_fragment, replace_all}

abbrev is_blank : ℕ → Bool
is_blank c = c == 9 || c == 10 || c == 12 || c == 13 || c == 32

abbrev blanks : Re
blanks = many is_blank

abbrev some_blanks : Re
some_blanks = seq (one is_blank) blanks

digits : Re
digits = group 1 (seq (one is_digit) (many is_digit))

-- `param=N`, and `param N`.
unfoldable pub equals_re : Text → Re
unfolding digits
equals_re param = seq word_edge (
    seq (either_case param)
      (seq blanks (seq (one (λ c. c == b'=')) (seq blanks (seq digits word_edge)))))

unfoldable pub space_re : Text → Re
unfolding digits
space_re param = seq word_edge (seq (either_case param) (seq some_blanks (seq digits word_edge)))

-- The number of a match, if it is one of an int.
number_of : Option Found → Option Text
number_of none = none
number_of (some f) = if (atoi (group_of 1 f.groups)).1 then some (group_of 1 f.groups) else none

set_number : List (Text × Text) → Text → Option Text → List (Text × Text)
set_number args param none = args
set_number args param (some n) = put args param n

first_number_of : Text → Text → Option Text → Option Text
unfolding number_of
first_number_of lower param (some n) = some n
first_number_of lower param none = number_of (find (space_re param) lower)

args_from : List (Text × Text) → Text → List Text → List (Text × Text)
unfolding set_number first_number_of number_of
args_from args lower [] = args
args_from args lower (p ∷ ps) =
    args_from (set_number args p (first_number_of lower p (number_of (find (equals_re p) lower))))
      lower ps

unfoldable pub extract_skill_args : Text → List Text → List (Text × Text)
unfolding args_from
extract_skill_args lower params = args_from [] lower params

is_token_char : ℕ → Bool
is_token_char c = is_letter c || is_digit c || c == b'_' || c == b'.' || c == b':' || c == b'-'

token : Re
unfolding is_token_char
token = group 1 (seq (one is_token_char) (many is_token_char))

unfoldable pub keyword_patterns : List Re
unfolding token
keyword_patterns =
    seq word_edge (
      seq (either_case (lit "keyword"))
        (seq blanks (seq (one (λ c. c == b'=')) (seq blanks token))))
    ∷ seq word_edge (seq (either_case (lit "keyword")) (seq some_blanks token))
    ∷ seq (either_case (lit "关键字")) (seq blanks (seq (one (λ c. c == b'=')) (seq blanks token)))
    ∷ seq (either_case (lit "关键字")) (seq some_blanks token)
    ∷ []

first_match : List Re → Text → Text
first_match [] lower = []
first_match (r ∷ rs) lower =
    let later = first_match rs lower in
    elim (find r lower) [ none ↦ later | some f ↦ group_of 1 f.groups ]

unfoldable pub extract_keyword : Text → Text
unfolding first_match
extract_keyword lower = first_match keyword_patterns lower

unfoldable pub eth_name_token_re : Re
unfolding is_token_char
eth_name_token_re = seq text_begin (seq (one is_token_char) (seq (many is_token_char) text_end))

eth_words : List Text
eth_words = map lit (
    "nic" ∷ "nic_down" ∷ "down" ∷ "link" ∷ "set" ∷ "ip" ∷ "--yes" ∷ "yes" ∷ "确认" ∷ "网口" ∷ "关闭网口"
    ∷ "禁用网口" ∷ "网口下线" ∷ [])

is_eth_token : Text → Text → Text → Bool
unfolding eth_words
is_eth_token cl nd tok =
    not (any (λ w. text_eq w tok) eth_words || text_eq tok cl || text_eq tok nd)
    && not (contains tok (lit "-") || contains tok (lit "_"))
    && match_string eth_name_token_re tok
    && any is_digit tok

first_eth : Text → Text → List Text → Text
unfolding is_eth_token
first_eth cl nd [] = []
first_eth cl nd (tok ∷ toks) =
    let later = first_eth cl nd toks in if is_eth_token cl nd tok then tok else later

unfoldable pub extract_eth_name : Text → Text → Text → Text
unfolding first_eth
extract_eth_name lower cluster_name node_name =
    first_eth (to_lower cluster_name) (to_lower node_name) (fields lower)

-- The id of a daemon: the first short word that is no part of the request.
first_id : Text → List Text → List Text → Text
first_id cluster known [] = []
first_id cluster known (tok ∷ toks) =
    let later = first_id cluster known toks in
    if ltb 3 (length tok)
      || not (is_alnum tok)
      || text_eq cluster [] && is_cluster_fragment tok known
    then later
    else tok

blank_out : List Text → Text → Text
blank_out [] s = s
blank_out (w ∷ ws) s = blank_out ws (replace_all s w (lit " "))

without_cluster : Text → Text → Text
without_cluster [] s = s
without_cluster (c ∷ cluster) s = replace_all s (to_lower (c ∷ cluster)) (lit " ")

unfoldable pub daemon_id : Text → Text → Text → List Text → Text
unfolding first_id blank_out without_cluster
daemon_id daemon lower cluster known = first_id cluster known (
    fields (
      blank_out (lit "restart" ∷ lit "重启" ∷ lit "确认" ∷ daemon ∷ [])
        (without_cluster cluster (replace_all lower (lit "--yes") (lit " ")))))

unfoldable pub says_yes : Text → Bool
says_yes lower = contains lower (lit "--yes") || contains lower (lit "确认")
