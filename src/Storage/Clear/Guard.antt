-- ===== src/Storage/Clear/Guard.antt =====
-- What the destructive call sends, and when.
use storage_bot.Base.{
  ℕ, ◌≡◌, ◌≢◌, ◌⊎◌, refl, sym, Bool, true, false, List, [], ◌∷◌, Text, Option, none, some,
  trim_space, length, lit,
}
use storage_bot.Base.Result.{Result, err, ok}
use storage_bot.Storage.Path.{normalize_quota_path}
use storage_bot.Storage.Recycle.{RecycleEntry, Yanrong, pick_recycle_for_path, check_user_dir_path}
use storage_bot.Storage.Recycle.Pick.{
  Below, Picks, IsBest, check_user_dir_path_iff, pick_recycle_for_path-Picks,
}
use storage_bot.Storage.Session.{Net, Account, Session}
use storage_bot.Storage.Pages.{Decoded}
use storage_bot.Storage.Clear.{
  api_path, list_all_recycles, post_clear, clear_in, clear_picked, clear_listed, clear_option,
  clear_recycle_files,
}

module _ {W : Type 0} (net : Net W) (a : Account) (quote : Text → Text)
    (decode : Text → Text → Decoded RecycleEntry) (y : Yanrong) (fuel : ℕ) where
  -- What a run with the state `s` behind the listing of the bins may do to the session: nothing, or
  -- one delete of the given path, in a bin that is the best one listed for it, where the path lies
  -- below a configured user prefix and the run is no dry run.
  pub data Deed (query_path : Text) (dry_run : Bool) (recycles : List RecycleEntry) (s : Session W)
      (r : Result Text × Session W) : Type 0 where
    untouched : r.1 ≡ s → Deed query_path dry_run recycles s r
    deleted :
        (match : RecycleEntry)
        → dry_run ≡ false
        → Below (normalize_quota_path query_path) y.private_user_prefix
          ⊎ Below (normalize_quota_path query_path) y.public_user_prefix
        → IsBest (normalize_quota_path (normalize_quota_path query_path)) recycles match
        → r ≡ post_clear net a quote decode y fuel match (api_path query_path) s
        → Deed query_path dry_run recycles s r

  clear_in-Deed :
      (query_path : Text) (dry_run : Bool) (recycles : List RecycleEntry) (match : RecycleEntry)
      (s : Session W)
      → IsBest (normalize_quota_path (normalize_quota_path query_path)) recycles match
      → (g : Option Text)
      → (dry_run ≡ false → g ≡ check_user_dir_path quote y (normalize_quota_path query_path))
      → Deed query_path dry_run recycles s
          (clear_in net a quote decode y fuel query_path dry_run match g s)
  unfolding clear_in
  clear_in-Deed query_path dry_run recycles match s b (some e) h = untouched refl
  clear_in-Deed query_path true recycles match s b none h = untouched refl
  clear_in-Deed query_path false recycles match s b none h =
      deleted match refl
        ((check_user_dir_path_iff quote y (normalize_quota_path query_path)).0 (sym (h refl))) b
        refl

  clear_picked-Deed :
      (query_path : Text) (dry_run : Bool) (recycles : List RecycleEntry) (scanned : ℕ)
      (o : Option RecycleEntry) (s : Session W)
      → Picks (normalize_quota_path (normalize_quota_path query_path)) recycles o
      → Deed query_path dry_run recycles s
          (clear_picked net a quote decode y fuel query_path dry_run scanned o s)
  unfolding clear_picked
  clear_picked-Deed query_path dry_run recycles scanned none s h = untouched refl
  clear_picked-Deed query_path true recycles scanned (some match) s h =
      clear_in-Deed query_path true recycles match s h none (λ e. absurd (cc))
  clear_picked-Deed query_path false recycles scanned (some match) s h =
      clear_in-Deed query_path false recycles match s h
        (check_user_dir_path quote y (normalize_quota_path query_path)) (λ e. refl)

  clear_listed-Deed :
      (query_path : Text) (dry_run : Bool) (recycles : List RecycleEntry) (s : Session W)
      → Deed query_path dry_run recycles s
          (clear_listed net a quote decode y fuel query_path dry_run (ok recycles, s))
  unfolding clear_listed
  clear_listed-Deed query_path dry_run recycles s =
      clear_picked-Deed query_path dry_run recycles (length recycles)
        (pick_recycle_for_path recycles (normalize_quota_path query_path)) s
        (pick_recycle_for_path-Picks recycles (normalize_quota_path query_path))

  -- For a path that is not blank, and where the listing of the bins gives a list `recycles` and leaves
  -- the session `t`, a run of
  -- ClearRecycleFiles ends. It leaves the session as the listing left it, or it makes the one delete
  -- request for the path: the latter only if it is no dry run, if a user prefix is configured and the
  -- normalised path is strictly under it, and in a bin that holds the path and whose own path is
  -- longest among those of `recycles` that do.
  pub clear_recycle_files-Deed :
      (query_path : Text) (dry_run : Bool) (s t : Session W) (recycles : List RecycleEntry)
      → trim_space query_path ≢ []
      → list_all_recycles net a quote decode y fuel s ≡ some (ok recycles, t)
      → (r : Result Text × Session W) × (clear_recycle_files net a quote decode y fuel query_path
            dry_run s
          ≡ some r)
        × Deed query_path dry_run recycles t r
  unfolding clear_recycle_files clear_option
  clear_recycle_files-Deed query_path dry_run s t recycles n e = (
    clear_listed net a quote decode y fuel query_path dry_run (ok recycles, t),
    given_path (trim_space query_path) n,
    clear_listed-Deed query_path dry_run recycles t,
  )
    where
      given_path :
          (p : Text)
          → p ≢ []
          → (elim p as (λ _. Option (Result Text × Session W)) [
            | [] ↦ some (err (lit "path is required"), s)
            | c ∷ q ↦
                clear_option net a quote decode y fuel query_path dry_run
                  (list_all_recycles net a quote decode y fuel s)
          ])
            ≡ some (clear_listed net a quote decode y fuel query_path dry_run (ok recycles, t))
      given_path [] k = absurd (k refl)
      given_path (c ∷ q) k = rw e refl
