-- ===== src/Intent/Tests.antt =====
-- Runs of the alias table, and its theorems at concrete inputs.
use storage_bot.Base.{
  ℕ, ◌≡◌, ◌≢◌, ◌↔◌, refl, true, false, Option, none, some, List, [], ◌∷◌, Text, lit, contains, In,
}
use storage_bot.Base
use storage_bot.Intent.{action_health, needs_fallback, skill_alias_table, first_skill}
use storage_bot.Intent.Order.{rgw_pg_shadowed}

parser : Unit {0}
unfolding needs_fallback skill_alias_table first_skill Base.lit Base.text_eq Base.contains
    Base.has_prefix
parser = tt

restart : first_skill skill_alias_table (lit "重启 mon a cdn") ≡ some (lit "restart_mon")
unfolding parser
restart = refl

nothing : first_skill skill_alias_table (lit "hey") ≡ none
unfolding parser
nothing = refl

asks : needs_fallback action_health [] ≡ true
unfolding parser
asks = refl

rgw_pg_shadowed_example :
    first_skill skill_alias_table (lit "optimize rgw pg cdn") ≢ some (lit "optimize_rgw_pg")
unfolding parser
rgw_pg_shadowed_example = rgw_pg_shadowed (lit "optimize rgw pg cdn") refl

taken_for_status :
    first_skill skill_alias_table (lit "optimize rgw pg cdn") ≡ some (lit "pg_status")
unfolding parser
taken_for_status = refl
