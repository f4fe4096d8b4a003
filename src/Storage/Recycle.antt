-- ===== src/Storage/Recycle.antt =====
-- storage/yanrong.go: the recycle bins, the choice of the bin for a path, and the guard of the
-- destructive calls.
pub mod Pick
use storage_bot.Base.{
  ℕ, Bool, true, false, not, ◌&&◌, ◌||◌, List, [], ◌∷◌, ◌++◌, Text, lit, text_eq, if◌then◌else◌,
  ltb, length, Option, none, some, join, trim_space, to_lower, ◌≡◌,
}
use storage_bot.Base.Int.{ℤ, pos, ltb_ℤ}
use storage_bot.Base.Result.{Result, err, ok}
use storage_bot.Storage.Path.{clean, normalize_quota_path, path_has_prefix, path_strictly_under}

pub record RecycleEntry : Type 0 where
  pub id : ℤ
  pub path : Text
  pub expiration : ℤ
  pub status : Text
  pub usage : Text

-- What the backend is built with, the connection left out.
pub record Yanrong : Type 0 where
  pub name : Text
  pub public_user_prefix : Text
  pub private_user_prefix : Text

-- The loop, with the best entry so far; `none` is the length -1.
unfoldable pub pick_from : Text → Option RecycleEntry → List RecycleEntry → Option RecycleEntry
pick_from q best [] = best
pick_from q best (r ∷ rs) =
    pick_from q
      (if not (path_has_prefix q (normalize_quota_path r.path)) then best else elim best [
        | none ↦ some r
        | some b ↦
            if ltb (length (normalize_quota_path b.path)) (length (normalize_quota_path r.path))
            then some r
            else some b
      ])
      rs

unfoldable pub pick_recycle_for_path : List RecycleEntry → Text → Option RecycleEntry
pick_recycle_for_path recycles query_path =
    pick_from (normalize_quota_path query_path) none recycles

abbrev given : Text → Bool
given [] = false
given (c ∷ s) = true

-- `quote` is the verb %q of package fmt.
module _ (quote : Text → Text) where
  allowed_texts : Yanrong → List Text
  allowed_texts y =
      (if given y.private_user_prefix
        then (lit "private=" ++ (normalize_quota_path y.private_user_prefix ++ lit "/<user>/..."))
          ∷ []
        else [])
      ++ (if given y.public_user_prefix
          then (lit "public=" ++ (normalize_quota_path y.public_user_prefix ++ lit "/<user>/..."))
            ∷ []
          else [])

  unfoldable pub check_user_dir_path : Yanrong → Text → Option Text
  unfolding allowed_texts
  check_user_dir_path y cleaned =
      let pub_prefix = normalize_quota_path y.public_user_prefix in
      let priv_prefix = normalize_quota_path y.private_user_prefix in
      let has_pub = given y.public_user_prefix in
      let has_priv = given y.private_user_prefix in
      if not has_pub && not has_priv
      then some (
          lit "refusing destructive op: no public/private user_prefix configured on storage "
          ++ quote y.name)
      else if has_priv && path_strictly_under cleaned priv_prefix
      then none
      else if has_pub && path_strictly_under cleaned pub_prefix
      then none
      else some (
          lit "refusing to clear "
          ++ (quote cleaned
              ++ (lit ": path must live under a user directory ("
                  ++ (join (allowed_texts y) (lit " or ") ++ lit ")"))))

  -- filepath.Join cleans the two joined by a slash, which is a rooted path where the prefix is one.
  abbrev join_path : Text → Text → Text
  join_path prefix user = clean (prefix ++ b'/' ∷ user)

  scope_prefix : Yanrong → Text → Option Text
  scope_prefix y scope =
      let s = to_lower (trim_space scope) in
      if text_eq s (lit "public")
      then some y.public_user_prefix
      else if text_eq s (lit "private") || text_eq s []
      then some y.private_user_prefix
      else none

  -- For prefixes that start with a slash, as the configuration's comments have them.
  unfoldable pub resolve_user_path : Yanrong → Text → Text → Result Text
  unfolding scope_prefix
  resolve_user_path y user scope = elim (trim_space user) [
    | [] ↦ err (lit "user is required")
    | c ∷ u ↦ elim (scope_prefix y scope) [
      | none ↦ err (lit "unknown scope " ++ (quote scope ++ lit " (want public or private)"))
      | some [] ↦ err (
          lit "no "
          ++ (to_lower scope ++ (lit "_user_prefix configured for storage " ++ quote y.name)))
      | some (d ∷ prefix) ↦ ok (join_path (d ∷ prefix) (c ∷ u))
    ]
  ]
