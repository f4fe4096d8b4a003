-- ===== src/Intent/Parse/Tests.antt =====
-- Messages and their actions, and the parser's theorems at concrete inputs.
use storage_bot.Base.{◌≡◌, ◌↔◌, refl, true, false, Bool, List, [], ◌∷◌, Text, lit, to_lower}
use storage_bot.Base
use storage_bot.Base.Decimal
use storage_bot.Regex
use storage_bot.Security.Patterns.{either_case}
use storage_bot.Skill.Context.{arg}
use storage_bot.Cluster.Nodes.{put}
use storage_bot.Intent.{first_skill, skill_alias_table}
use storage_bot.Intent.Words.{
  is_name_char, contains_word, is_numeric, is_alnum, is_cluster_fragment, replace_all,
}
use storage_bot.Intent.Target.{
  cluster_name_re, name_parts, first_word, first_number, extract_cluster_name, matching,
  excludes_of, says_all, extract_cluster_target, is_host_shaped, extract_node_name,
}
use storage_bot.Intent.Args.{
  equals_re, space_re, extract_skill_args, keyword_patterns, extract_keyword, eth_name_token_re,
  extract_eth_name, daemon_id, says_yes,
}
use storage_bot.Intent.Parse.{
  Known, strip_mention, asks_items, asks_inspection, enables, skill_args, skill_action,
  parse_stripped, parse_with_all, clean_json_response,
}
use storage_bot.Intent.Parse.Flags.{Understood, parse_with_all-unset}
use storage_bot.Intent.Parse.Reads.{Confirms, parse_with_all-Confirms}

messages : Unit {0}
unfolding either_case arg put first_skill skill_alias_table is_name_char contains_word is_numeric
    is_alnum is_cluster_fragment replace_all cluster_name_re name_parts first_word first_number
    extract_cluster_name matching excludes_of says_all extract_cluster_target is_host_shaped
    extract_node_name equals_re space_re extract_skill_args keyword_patterns extract_keyword
    eth_name_token_re extract_eth_name daemon_id says_yes strip_mention asks_items asks_inspection
    enables skill_args skill_action parse_stripped parse_with_all clean_json_response
    Regex.match_string Regex.find Regex.run Regex.group_of Base.lit Base.trim_space Base.fields
    Base.has_prefix Base.has_suffix Base.trim_prefix Base.trim_suffix Base.text_eq Base.to_lower
    Base.contains Base.cut Base.index Decimal.itoa Decimal.itoa_ℕ Decimal.atoi Decimal.parse_uint
    Decimal.scan
messages = tt

abbrev known : Known
known = record {
  longest_first = λ ns. ns;
  clusters = lit "cdn-01" ∷ lit "cdn-02" ∷ lit "small-03" ∷ [];
  skills = [];
  storages = [];
}

down :
    arg
      (parse_with_all known (lit "@_user_1 nic down cdn-01 bd-node02 eth0 --yes")).args
      (lit "eth")
    ≡ lit "eth0"
unfolding messages
down = refl

restart_id : arg (parse_with_all known (lit "restart mon b cdn-01")).args (lit "id") ≡ lit "b"
unfolding messages
restart_id = refl

several : (parse_with_all known (lit "set noout CDN")).cluster_name ≡ lit "cdn*"
unfolding messages
several = refl

-- A cluster whose name contains `all` stands for all of them.
all_in_a_name : (parse_with_all known (lit "set noout small-03")).cluster_name ≡ lit "all"
unfolding messages
all_in_a_name = refl

-- The letters `on` are enough to switch the language model on.
on_in_a_word : (parse_with_all known (lit "disable llm connection")).toggle_llm_enable ≡ true
unfolding messages
on_in_a_word = refl

excluding :
    (parse_with_all known (lit "set noout all except small")).exclude_clusters ≡ lit "small-03" ∷ []
unfolding messages
excluding = refl

cleaned : clean_json_response (lit "```json\nok {} end\n```") ≡ lit "{}"
unfolding messages
cleaned = refl

parse_with_all-Confirms_example :
    Confirms
      (to_lower (strip_mention (lit "restart mon b cdn-01 --yes")))
      (parse_with_all known (lit "restart mon b cdn-01 --yes")).args
parse_with_all-Confirms_example = parse_with_all-Confirms known (lit "restart mon b cdn-01 --yes")

parse_with_all-unset_example :
    Understood
      (to_lower (strip_mention (lit "@_user_1 Unset nobackfill cdn-01")))
      (parse_with_all known (lit "@_user_1 Unset nobackfill cdn-01"))
unfolding messages
parse_with_all-unset_example =
    parse_with_all-unset known (lit "@_user_1 Unset nobackfill cdn-01") refl

unset_skill :
    (parse_with_all known (lit "unset nobackfill cdn-01")).skill_name ≡ lit "unset_no_backfill"
unfolding messages
unset_skill = refl
