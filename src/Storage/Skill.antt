-- ===== src/Storage/Skill.antt =====
-- storage/skill.go: what a chat message to a storage backend asks for. Query is read as the call of
-- the backend that it makes.
pub mod Confirm
use storage_bot.Base.{
  ℕ, Bool, true, false, not, ◌||◌, List, [], ◌∷◌, Text, lit, text_eq, if◌then◌else◌, any, keep,
  has_prefix, contains, to_lower, fields, join,
}

-- strings.EqualFold, in ASCII.
abbrev equal_fold : Text → Text → Bool
equal_fold s t = text_eq (to_lower s) (to_lower t)

unfoldable pub strip_storage_name : Text → Text → Text
strip_storage_name msg name =
    join (keep (λ f. not (equal_fold f name || has_prefix f (lit "@"))) (fields msg)) (lit " ")

behind_first : List Text → Text
behind_first [] = []
behind_first (f ∷ fs) = join fs (lit " ")

unfoldable pub strip_first_word : Text → Text
unfolding behind_first
strip_first_word s = behind_first (fields s)

abbrev one_of : Text → List Text → Bool
one_of s words = any (text_eq s) words

-- One round: the user and the scope so far, and a field.
scope_step : Text × Text → Text → Text × Text
scope_step (user, scope) f =
    let lf = to_lower f in
    if one_of lf (lit "user" ∷ lit "用户" ∷ lit "quota" ∷ lit "配额" ∷ [])
    then (user, scope)
    else if one_of lf (lit "public" ∷ lit "公共" ∷ [])
    then (user, lit "public")
    else if one_of lf (lit "private" ∷ lit "私有" ∷ [])
    then (user, lit "private")
    else (if text_eq user [] then f else user, scope)

scope_from : Text × Text → List Text → Text × Text
unfolding scope_step
scope_from s [] = s
scope_from s (f ∷ fs) = scope_from (scope_step s f) fs

-- The user and the scope.
unfoldable pub parse_user_scope : Text → Text × Text
unfolding scope_from
parse_user_scope s = scope_from ([], lit "private") (fields s)

pub first_path : List Text → Text
first_path [] = []
first_path (f ∷ fs) = let later = first_path fs in if has_prefix f (lit "/") then f else later

unfoldable pub extract_recycle_path : Text → Text
unfolding first_path
extract_recycle_path s = first_path (fields s)

abbrev pub confirm_tokens : List Text
confirm_tokens = lit "--yes" ∷ lit " yes" ∷ lit "confirm" ∷ lit "确认" ∷ lit "真实" ∷ lit "真的" ∷ []

unfoldable pub has_confirm_token : Text → Bool
has_confirm_token lower = any (contains lower) confirm_tokens

-- The call that Query makes: `clear` with the path and whether it is for real, `files` with the path,
-- the two usage texts of the recycle bin where there is no path, and `no_user` for the error.
pub data Call : Type 0 where
  health cluster_info list_quotas list_bins clear_usage files_usage no_user : Call
  dir_usage list_files : Text → Call
  clear : Text → Bool → Call
  user_usage : Text → Text → Call

abbrev has_any : Text → List Text → Bool
has_any s words = any (contains s) words

abbrev starts_any : Text → List Text → Bool
starts_any s words = any (has_prefix s) words

clear_call : Text → Bool → Call
clear_call [] confirmed = clear_usage
clear_call (c ∷ p) confirmed = clear (c ∷ p) confirmed

files_call : Call → Text → Call
files_call other [] = other
files_call other (c ∷ p) = list_files (c ∷ p)

pub recycle_call : Text → Call
unfolding clear_call files_call
recycle_call raw =
    let lower = to_lower raw in
    let p = extract_recycle_path raw in
    if has_any lower (lit "clear" ∷ lit "清空" ∷ lit "删除" ∷ [])
    then clear_call p (has_confirm_token lower)
    else if has_any lower (lit "file" ∷ lit "文件" ∷ lit "list" ∷ [])
    then files_call files_usage p
    else files_call list_bins p

usage_call : Text → Call
usage_call [] = dir_usage (lit "/")
usage_call (c ∷ p) = dir_usage (c ∷ p)

user_call : Text × Text → Call
user_call ([], scope) = no_user
user_call (c ∷ user, scope) = user_usage (c ∷ user) scope

-- For a Yanrong backend, by the message without the storage's name.
pub call_of : Text → Call
unfolding recycle_call usage_call user_call
call_of raw =
    let lower = to_lower raw in
    if one_of lower (lit "health" ∷ lit "健康" ∷ []) || contains lower (lit "status")
    then health
    else if starts_any lower (lit "usage" ∷ lit "使用" ∷ lit "dir" ∷ [])
    then usage_call (strip_first_word raw)
    else if has_any lower (lit "quota" ∷ lit "配额" ∷ [])
    then list_quotas
    else if has_any lower (lit "recycle" ∷ lit "回收站" ∷ [])
    then recycle_call raw
    else if starts_any lower
        (lit "user" ∷ lit "用户" ∷ lit "private" ∷ lit "public" ∷ lit "私有" ∷ lit "公共" ∷ [])
    then user_call (parse_user_scope raw)
    else cluster_info

unfoldable pub query : Text → Text → Call
unfolding call_of
query name action = call_of (strip_storage_name action name)
