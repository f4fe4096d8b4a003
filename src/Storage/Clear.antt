-- ===== src/Storage/Clear.antt =====
-- storage/yanrong.go: ClearRecycleFiles, with the listing of the bins and the session under it.
pub mod Guard
use storage_bot.Base.{
  ℕ, Bool, true, false, not, List, [], ◌∷◌, ◌++◌, Text, lit, if◌then◌else◌, Option, none, some,
  trim_space, has_suffix, length,
}
use storage_bot.Base.Int.{ℤ, pos}
use storage_bot.Base.Decimal.{itoa}
use storage_bot.Base.Result.{Result, err, ok}
use storage_bot.Storage.Path.{normalize_quota_path}
use storage_bot.Storage.Recycle.{RecycleEntry, Yanrong, pick_recycle_for_path, check_user_dir_path}
use storage_bot.Storage.Session.{Net, Account, Session, authed_post}
use storage_bot.Storage.Pages.{Decoded, PageSpec, list_paginated}

-- The API wants a slash at the end of a directory.
abbrev pub api_path : Text → Text
api_path p = if not (has_suffix p (b'/' ∷ [])) then p ++ b'/' ∷ [] else p

abbrev pub action_endpoint : ℤ → Text
action_endpoint id = lit "/api/v2/recycle/" ++ (itoa id ++ lit "/action")

-- `quote` is the verb %q of package fmt, `decode` what encoding/json makes of a page, and `fuel`
-- bounds the rounds of the listing.
module _ {W : Type 0} (net : Net W) (a : Account) (quote : Text → Text)
    (decode : Text → Text → Decoded RecycleEntry) (y : Yanrong) (fuel : ℕ) where
  pub list_all_recycles : Session W → Option (Result (List RecycleEntry) × Session W)
  list_all_recycles s =
      list_paginated net a decode
        (record {
          endpoint = lit "/api/v2/recycle";
          list_key = lit "recycles";
          label = lit "recycles";
        })
        fuel s

  bin_text : RecycleEntry → Text → Text
  bin_text match p = itoa match.id ++ (lit " (path=" ++ (match.path ++ (lit ") 下的 " ++ p)))

  preview : RecycleEntry → Text → Text
  unfolding bin_text
  preview match p =
      lit "🧪 dry-run · 将清空 recycle #"
      ++ (bin_text match p
          ++ (lit "\n   POST "
              ++ (action_endpoint match.id
                  ++ (lit "\n   body=map[action:delete path:" ++ (p ++ lit "]\n   (实际未执行)")))))

  cleared : RecycleEntry → Text → Result Text → Result Text
  unfolding bin_text
  cleared match p (err e) = err (lit "clear recycle files: " ++ e)
  cleared match p (ok raw) = ok (lit "🧹 已清空 recycle #" ++ (bin_text match p ++ (b'\n' ∷ raw)))

  -- The request that deletes.
  pub post_clear : RecycleEntry → Text → Session W → Result Text × Session W
  unfolding cleared
  post_clear match p s =
      let (r, t) =
        authed_post net a (action_endpoint match.id) ((lit "lang", lit "zh") ∷ [])
          ((lit "action", lit "delete") ∷ (lit "path", p) ∷ []) s in
      (cleared match p r, t)

  -- With the bin that was picked and the guard's answer.
  pub clear_in : Text → Bool → RecycleEntry → Option Text → Session W → Result Text × Session W
  unfolding preview post_clear
  clear_in query_path dry_run match (some e) s = (err e, s)
  clear_in query_path dry_run match none s =
      if dry_run
      then (ok (preview match (api_path query_path)), s)
      else post_clear match (api_path query_path) s

  -- With the bin that was picked among so many.
  pub clear_picked : Text → Bool → ℕ → Option RecycleEntry → Session W → Result Text × Session W
  unfolding clear_in
  clear_picked query_path dry_run scanned none s = (
    err (
        lit "no recycle bin covers path "
        ++ (quote query_path ++ (lit " (scanned " ++ (itoa (pos scanned) ++ lit " entries)")))),
    s,
  )
  clear_picked query_path dry_run scanned (some match) s =
      clear_in query_path dry_run match
        (if not dry_run
          then check_user_dir_path quote y (normalize_quota_path query_path)
          else none)
        s

  -- Behind the listing of the bins.
  pub clear_listed : Text → Bool → Result (List RecycleEntry) × Session W → Result Text × Session W
  unfolding clear_picked
  clear_listed query_path dry_run (err e, s) = (err e, s)
  clear_listed query_path dry_run (ok recycles, s) =
      clear_picked query_path dry_run (length recycles)
        (pick_recycle_for_path recycles (normalize_quota_path query_path)) s

  pub clear_option :
      Text
      → Bool
      → Option (Result (List RecycleEntry) × Session W)
      → Option (Result Text × Session W)
  unfolding clear_listed
  clear_option query_path dry_run none = none
  clear_option query_path dry_run (some r) = some (clear_listed query_path dry_run r)

  -- `none` is out of fuel.
  unfoldable pub clear_recycle_files : Text → Bool → Session W → Option (Result Text × Session W)
  unfolding clear_option list_all_recycles
  clear_recycle_files query_path dry_run s = elim (trim_space query_path) [
    | [] ↦ some (err (lit "path is required"), s)
    | c ∷ p ↦ clear_option query_path dry_run (list_all_recycles s)
  ]
