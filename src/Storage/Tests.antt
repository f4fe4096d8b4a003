-- ===== src/Storage/Tests.antt =====
-- Runs of the storage backend, and its theorems at concrete inputs. The servers are small functions.
use storage_bot.Base.{
  ℕ, zero, suc, ◌+◌, ◌*◌, ◌≤◌, ◌<◌, ◌≡◌, ◌≢◌, ◌↔◌, ◌⊎◌, refl, sym, ap, ◌∙◌, inl, inr, true, false,
  Bool, Option, none, some, List, [], ◌∷◌, ◌++◌, arith, Text, lit, length, In,
}
use storage_bot.Base
use storage_bot.Base.Decimal
use storage_bot.Base.Int.{ℤ, pos}
use storage_bot.Base.Result.{Result, err, ok}
use storage_bot.Storage.Path.{
  normalize_quota_path, path_has_prefix, path_strictly_under, clean, parts, render, rel,
}
use storage_bot.Storage.Path.Render.{components}
use storage_bot.Storage.Path.Prefix.{path_strictly_under_iff}
use storage_bot.Storage.Recycle.{
  RecycleEntry, Yanrong, pick_from, pick_recycle_for_path, check_user_dir_path, resolve_user_path,
}
use storage_bot.Storage.Recycle.Pick.{Picks, pick_recycle_for_path-Picks}
use storage_bot.Storage.Session.{
  Request, Reply, reply, Net, Account, Session, ensure_token, do_request, authed_get, authed_post,
  yanrong_password_cipher,
}
use storage_bot.Storage.Session.Retry.{Counts, authed-costs, Renewal, authed_get_renews}
use storage_bot.Storage.Pages.{Decoded, listed, PageSpec, fetch_page, list_paginated}
use storage_bot.Storage.Pages.Total.{TotalsWithin, list_paginated_ends}
use storage_bot.Storage.Pages.Honest.{Serves, list_paginated_whole}
use storage_bot.Storage.Clear.{clear_recycle_files}
use storage_bot.Storage.Clear.Guard.{Deed, clear_recycle_files-Deed}
use storage_bot.Storage.Skill.{
  clear, query, strip_storage_name, strip_first_word, parse_user_scope, extract_recycle_path,
  has_confirm_token,
}
use storage_bot.Storage.Skill.Confirm.{IsSound, query-IsSound}

backend : Unit {0}
unfolding normalize_quota_path path_has_prefix path_strictly_under clean parts render rel pick_from
    pick_recycle_for_path check_user_dir_path resolve_user_path ensure_token do_request authed_get
    authed_post yanrong_password_cipher list_paginated clear_recycle_files Base.lit Base.trim_space
    Base.has_prefix Base.has_suffix Base.text_eq Base.join Base.split_at Base.to_lower Decimal.itoa
    Decimal.itoa_ℕ
backend = tt

normalized : normalize_quota_path (lit " a//b/../c/ ") ≡ lit "/a/c"
unfolding backend
normalized = refl

above_root : normalize_quota_path (lit "/../..") ≡ lit "/"
unfolding backend
above_root = refl

component_wise : path_has_prefix (lit "/a/bc") (lit "/a/b") ≡ false
unfolding backend
component_wise = refl

path_strictly_under_iff_example : (path_strictly_under (lit "/a/b") (lit "/a") ≡ true) ↔ (
    (c : Text) × (rest : List Text) × (components (lit "/a/b") ≡ components (lit "/a") ++ c ∷ rest))
path_strictly_under_iff_example = path_strictly_under_iff (lit "/a/b") (lit "/a")

abbrev bin : ℕ → Text → RecycleEntry
bin n p = record { id = pos n; path = p; expiration = pos 7; status = lit "on"; usage = [] }

abbrev bins : List RecycleEntry
bins = bin 1 (lit "/data/") ∷ bin 2 (lit "/data/user") ∷ bin 3 (lit "/data/us") ∷ []

picked : pick_recycle_for_path bins (lit "data/user/alice") ≡ some (bin 2 (lit "/data/user"))
unfolding backend
picked = refl

pick_recycle_for_path-Picks_example :
    Picks
      (normalize_quota_path (lit "data/user/alice"))
      bins
      (pick_recycle_for_path bins (lit "data/user/alice"))
pick_recycle_for_path-Picks_example = pick_recycle_for_path-Picks bins (lit "data/user/alice")

abbrev yanrong : Yanrong
yanrong = record {
  name = lit "yr";
  public_user_prefix = [];
  private_user_prefix = lit "/data/user";
}

abbrev bare : Text → Text
bare t = t

joined :
    resolve_user_path bare yanrong (lit " alice ") (lit "Private") ≡ ok (lit "/data/user/alice")
unfolding backend
joined = refl

refused : check_user_dir_path bare yanrong (lit "/data/user") ≢ none
unfolding backend
refused e = cc

-- The exchange numbered 0 meets an expired token, and the others succeed.
expiring : ℕ → Request → Reply × ℕ
expiring zero r = (reply 401 [], suc zero)
expiring (suc n) r = (reply 200 r.token, suc (suc n))

abbrev net : Net ℕ
net = record {
  exchange = expiring;
  encode_query = λ q. [];
  marshal = λ q. [];
  login_token = λ b. ok (lit "new");
  pretty_json = bare;
  md5_hex = bare;
}

abbrev account : Account
account = record { base_url = lit "u"; username = lit "n"; password = lit "pw" }

abbrev old : Session ℕ
old = record { token = lit "old"; world = 0 }

ciphered : yanrong_password_cipher net account (lit "ab") ≡ lit "aabb"
unfolding backend
ciphered = refl

expiring-Counts : Counts net (λ w. w)
unfolding expiring
expiring-Counts zero r = omega arith
expiring-Counts (suc n) r = omega arith

authed-costs_example :
    ((authed_get net account (lit "/p") [] old).1.world ≤ 4 + 0)
    × ((authed_post net account (lit "/p") [] [] old).1.world ≤ 4 + 0)
authed-costs_example = authed-costs net account (λ w. w) (lit "/p") [] [] old expiring-Counts

renewal : Renewal net account old (lit "/p") [] (lit "new") (lit "new") 200 3
unfolding expiring backend
renewal = record {
  old_answer = [];
  login_status = 200;
  login_answer = [];
  w1 = 1;
  w2 = 2;
  cached = λ e. cc;
  fresh = λ e. cc;
  refused = refl;
  logged_in = refl;
  login_fine = omega arith;
  gives_token = refl;
  answered = refl;
  fine = omega arith;
}

authed_get_renews_example :
    authed_get net account (lit "/p") [] old
    ≡ (ok (lit "new"), record { token = lit "new"; world = 3 })
authed_get_renews_example =
    authed_get_renews net account old (lit "/p") [] (lit "new") (lit "new") 200 3 renewal

-- A server whose every reply has the same bins.
abbrev steady : Net ℕ
steady = record {
  exchange = λ w r. (reply 200 [], w);
  encode_query = λ q. [];
  marshal = λ q. [];
  login_token = λ b. ok (lit "t");
  pretty_json = bare;
  md5_hex = bare;
}

abbrev decoded : Text → Text → Decoded RecycleEntry
decoded key raw = listed bins (pos 3)

abbrev spec : PageSpec
spec = record { endpoint = lit "/r"; list_key = lit "recycles"; label = lit "recycles" }

steady_page :
    (page : ℕ) (token : Text) (w : ℕ)
    → (t : Session ℕ) × (fetch_page steady account decoded spec page
          (record { token = token; world = w })
        ≡ (ok (bins, pos 3), t))
unfolding backend fetch_page
steady_page page [] w = (record { token = lit "t"; world = w }, refl)
steady_page page (c ∷ u) w = (record { token = c ∷ u; world = w }, refl)

steady_totals : TotalsWithin steady account decoded spec 3
steady_totals page s batch total e =
    let (t, k) = steady_page page s.token s.world in
    let same : ◌≡◌ {A = Result (List RecycleEntry × ℤ)} (ok (bins, pos 3)) (ok (batch, total)) =
      sym (ap (λ o. o.0) k) ∙ e in
    let three : pos 3 ≡ total = cc same in rw (sym three) refl

list_paginated_ends_example :
    (r : Result (List RecycleEntry)) × (t : Session ℕ) × (list_paginated steady account decoded spec
        4 old
      ≡ some (r, t))
list_paginated_ends_example = list_paginated_ends steady account decoded spec 3 old steady_totals

steady_serves : Serves steady account decoded spec bins
steady_serves zero s w = steady_page 1 s.token s.world
steady_serves (suc n) s w = absurd (elim w [ inl e ↦ omega arith | inr l ↦ omega arith ])

list_paginated_whole_example :
    (u : Session ℕ) × (list_paginated steady account decoded spec 4 old ≡ some (ok bins, u))
list_paginated_whole_example =
    list_paginated_whole steady account decoded spec bins old steady_serves

clear_recycle_files-Deed_example :
    (r : Result Text × Session ℕ) × (clear_recycle_files steady account bare decoded yanrong 2
        (lit "/data/user/alice")
        false
        old
      ≡ some r)
    × Deed steady account bare decoded yanrong 2 (lit "/data/user/alice") false bins old r
unfolding backend
clear_recycle_files-Deed_example =
    clear_recycle_files-Deed steady account bare decoded yanrong 2 (lit "/data/user/alice") false
      old old bins (λ e. cc) refl

deleted_run :
    clear_recycle_files steady account bare decoded yanrong 2 (lit "/data/user/alice") false old
    ≡ some (ok (lit "🧹 已清空 recycle #2 (path=/data/user) 下的 /data/user/alice/\n"), old)
unfolding backend
deleted_run = refl

refused_run :
    clear_recycle_files steady account bare decoded yanrong 2 (lit "/data/user/") false old
    ≡ some (
      err (
          lit
            "refusing to clear /data/user: path must live under a user directory (private=/data/user/<user>/...)"),
      old,
    )
unfolding backend
refused_run = refl

chat : Unit {0}
unfolding query strip_storage_name strip_first_word parse_user_scope extract_recycle_path
    has_confirm_token Base.lit Base.contains Base.has_prefix Base.text_eq Base.join Base.fields
    Base.to_lower
chat = tt

-- A word of the path is taken for the confirmation.
unconfirmed :
    query (lit "yr") (lit "@bot YR recycle clear /data/user/confirmed/")
    ≡ clear (lit "/data/user/confirmed/") true
unfolding chat
unconfirmed = refl

dry :
    query (lit "yr") (lit "yr recycle clear /data/user/alice")
    ≡ clear (lit "/data/user/alice") false
unfolding chat
dry = refl

query-IsSound_example :
    IsSound
      (strip_storage_name (lit "yr recycle clear /data/user/alice") (lit "yr"))
      (query (lit "yr") (lit "yr recycle clear /data/user/alice"))
query-IsSound_example = query-IsSound (lit "yr") (lit "yr recycle clear /data/user/alice")
