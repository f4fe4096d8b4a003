-- ===== src/Storage/Skill/Confirm.antt =====
-- When a message clears a recycle bin, and when it does so for real.
use storage_bot.Base.{
  subst, ◌≡◌, ◌⊎◌, refl, sym, inl, inr, Bool, true, false, ◌||◌, List, [], ◌∷◌, Text, lit,
  if◌then◌else◌, In, has_prefix, contains, to_lower, fields, Bool-cases,
}
use storage_bot.Storage.Skill.{
  strip_storage_name, first_path, extract_recycle_path, has_confirm_token, Call, health,
  cluster_info, list_quotas, list_bins, clear_usage, files_usage, no_user, dir_usage, list_files,
  clear, user_usage, clear_call, files_call, recycle_call, usage_call, user_call, call_of, query,
  one_of, has_any, starts_any, strip_first_word, parse_user_scope,
}

first_path_here :
    (f : Text) (fs : List Text) → has_prefix f (lit "/") ≡ true → first_path (f ∷ fs) ≡ f
unfolding first_path
first_path_here f fs e = rw e refl

first_path_later :
    (f : Text) (fs : List Text)
    → has_prefix f (lit "/") ≡ false
    → first_path (f ∷ fs) ≡ first_path fs
unfolding first_path
first_path_later f fs e = rw e refl

first_path_none : first_path [] ≡ []
unfolding first_path
first_path_none = refl

first_path-In :
    (fs : List Text)
    → (first_path fs ≡ []) ⊎ (In (first_path fs) fs × (has_prefix (first_path fs) (lit "/") ≡ true))
first_path-In [] = inl first_path_none
first_path-In (f ∷ fs) = elim (Bool-cases (has_prefix f (lit "/"))) [
  | inl e ↦ subst Listed (sym (first_path_here f fs e)) (inr (inl refl, e))
  | inr e ↦
      subst Listed (sym (first_path_later f fs e))
        (elim (first_path-In fs) [ inl k ↦ inl k | inr (m, k) ↦ inr (inr m, k) ])
]
  where
    Listed : Text → Type 0
    Listed t = (t ≡ []) ⊎ (In t (f ∷ fs) × (has_prefix t (lit "/") ≡ true))

-- A call that clears is for the first path of the message, and for real only with a token.
abbrev pub IsSound : Text → Call → Type 0
IsSound raw (clear p confirmed) =
    (confirmed ≡ has_confirm_token (to_lower raw))
    × In p (fields raw)
    × (has_prefix p (lit "/") ≡ true)
IsSound raw health = Unit
IsSound raw cluster_info = Unit
IsSound raw list_quotas = Unit
IsSound raw list_bins = Unit
IsSound raw clear_usage = Unit
IsSound raw files_usage = Unit
IsSound raw no_user = Unit
IsSound raw (dir_usage p) = Unit
IsSound raw (list_files p) = Unit
IsSound raw (user_usage u s) = Unit

clear_call-IsSound :
    (raw p : Text)
    → (p ≡ []) ⊎ (In p (fields raw) × (has_prefix p (lit "/") ≡ true))
    → IsSound raw (clear_call p (has_confirm_token (to_lower raw)))
unfolding clear_call
clear_call-IsSound raw [] h = tt
clear_call-IsSound raw (c ∷ p) h = elim h [ inl e ↦ absurd (cc) | inr (m, k) ↦ (refl, m, k) ]

files_call-IsSound :
    (raw p : Text) (other : Call) → IsSound raw other → IsSound raw (files_call other p)
unfolding files_call
files_call-IsSound raw [] other h = h
files_call-IsSound raw (c ∷ p) other h = tt

usage_call-IsSound : (raw p : Text) → IsSound raw (usage_call p)
unfolding usage_call
usage_call-IsSound raw [] = tt
usage_call-IsSound raw (c ∷ p) = tt

user_call-IsSound : (raw : Text) (u : Text × Text) → IsSound raw (user_call u)
unfolding user_call
user_call-IsSound raw ([], scope) = tt
user_call-IsSound raw (c ∷ user, scope) = tt

branch :
    (raw : Text) (b : Bool) (x y : Call)
    → IsSound raw x
    → IsSound raw y
    → IsSound raw (if b then x else y)
branch raw true x y h k = h
branch raw false x y h k = k

recycle_call-IsSound : (raw : Text) → IsSound raw (recycle_call raw)
unfolding recycle_call extract_recycle_path
recycle_call-IsSound raw =
    let lower = to_lower raw in
    let p = first_path (fields raw) in
    let files = files_call files_usage p in
    let bins = files_call list_bins p in
    let is_files = has_any lower (lit "file" ∷ lit "文件" ∷ lit "list" ∷ []) in
    branch raw (has_any lower (lit "clear" ∷ lit "清空" ∷ lit "删除" ∷ []))
      (clear_call p (has_confirm_token lower)) (if is_files then files else bins)
      (clear_call-IsSound raw p (first_path-In (fields raw)))
      (branch raw is_files files bins (files_call-IsSound raw p files_usage tt)
        (files_call-IsSound raw p list_bins tt))

call_of-IsSound : (raw : Text) → IsSound raw (call_of raw)
unfolding call_of
call_of-IsSound raw =
    let lower = to_lower raw in
    let t1 = one_of lower (lit "health" ∷ lit "健康" ∷ []) || contains lower (lit "status") in
    let t2 = starts_any lower (lit "usage" ∷ lit "使用" ∷ lit "dir" ∷ []) in
    let t3 = has_any lower (lit "quota" ∷ lit "配额" ∷ []) in
    let t4 = has_any lower (lit "recycle" ∷ lit "回收站" ∷ []) in
    let t5 =
      starts_any lower
        (lit "user" ∷ lit "用户" ∷ lit "private" ∷ lit "public" ∷ lit "私有" ∷ lit "公共" ∷ []) in
    let c2 = usage_call (strip_first_word raw) in
    let c5 = user_call (parse_user_scope raw) in
    let r5 = if t5 then c5 else cluster_info in
    let r4 = if t4 then recycle_call raw else r5 in
    let r3 = if t3 then list_quotas else r4 in
    branch raw t1 health (if t2 then c2 else r3) tt (
      branch raw t2 c2 r3 (usage_call-IsSound raw (strip_first_word raw)) (
        branch raw t3 list_quotas r4 tt (
          branch raw t4 (recycle_call raw) r5 (recycle_call-IsSound raw)
            (branch raw t5 c5 cluster_info (user_call-IsSound raw (parse_user_scope raw)) tt))))

-- Where Query clears a recycle bin, the path is a word of the message that starts with a slash, and
-- the run is for real exactly if hasConfirmToken finds a token in the message; the message is taken
-- in lower case and without the words that name the storage or start with an at sign.
pub query-IsSound :
    (name action : Text) → IsSound (strip_storage_name action name) (query name action)
unfolding query
query-IsSound name action = call_of-IsSound (strip_storage_name action name)
