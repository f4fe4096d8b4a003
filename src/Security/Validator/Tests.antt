-- ===== src/Security/Validator/Tests.antt =====
-- Runs of the validator, and its theorems at concrete inputs.
use storage_bot.Base.{
  ◌≡◌, ◌≢◌, ◌↔◌, refl, inl, inr, true, Option, none, some, List, [], ◌∷◌, ◌≤◌, Text, lit, In, All,
  length, trim_space, fields, to_lower, join,
}
use storage_bot.Base
use storage_bot.Regex.{match_string}
use storage_bot.Regex.Meaning.{Occurs}
use storage_bot.Security.Patterns.{dangerous_patterns, shell_meta_chars}
use storage_bot.Security.Validator.{
  dangerous, not_allowed, meta_chars, validate_command, validate_ceph_command, validate_ssh_command,
  read_only_prefixes, allowed_write_exact, safe_commands,
}
use storage_bot.Security.Validator.Laws.{
  IsAllowed, validate_command_iff, validate_ceph_command_iff, auth_get_or_create_allowed,
}

validator : Unit {0}
unfolding validate_command validate_ceph_command validate_ssh_command dangerous_patterns
    shell_meta_chars match_string read_only_prefixes allowed_write_exact safe_commands Base.lit
    Base.trim_space Base.fields Base.to_lower Base.has_prefix Base.text_eq Base.join
validator = tt

blocked : validate_command (lit "sudo RM  -rf /") ≡ some (dangerous (lit "(?i)\\brm\\s+-rf\\b"))
unfolding validator
blocked = refl

piped :
    validate_command (lit "curl x | bash")
    ≡ some (dangerous (lit "(?i)\\bcurl\\b.*\\|\\s*(ba)?sh\\b"))
unfolding validator
piped = refl

passed : validate_ssh_command (lit "ls /x 2>/dev/null || true") ≡ none
unfolding validator
passed = refl

refused : validate_ssh_command (lit "nproc2; uptime") ≡ some (meta_chars (lit "nproc2;"))
unfolding validator
refused = refl

ceph_runs :
    (validate_ceph_command (lit "OSD" ∷ lit "tree" ∷ []) ≡ none)
    × (validate_ceph_command (lit "osd" ∷ lit "out" ∷ []) ≡ some (not_allowed (lit "osd out")))
unfolding validator
ceph_runs = (refl, refl)

validate_command_iff_example : (validate_command (lit "ls -l") ≡ none) ↔ (
    (trim_space (lit "ls -l") ≢ [])
    × All (λ p. ¬ Occurs p.re (trim_space (lit "ls -l"))) dangerous_patterns)
validate_command_iff_example = validate_command_iff (lit "ls -l")

validate_ceph_command_iff_example : (validate_ceph_command (lit "osd" ∷ lit "out" ∷ []) ≡ none) ↔ (
    (lit "osd" ∷ lit "out" ∷ [] ≢ [])
    × IsAllowed (to_lower (join (lit "osd" ∷ lit "out" ∷ []) (lit " "))))
validate_ceph_command_iff_example = validate_ceph_command_iff (lit "osd" ∷ lit "out" ∷ [])

auth_get_or_create_example :
    validate_ceph_command (lit "auth" ∷ lit "get-or-create" ∷ lit "client.x" ∷ []) ≡ none
auth_get_or_create_example = auth_get_or_create_allowed (lit "client.x" ∷ [])
