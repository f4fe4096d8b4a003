-- ===== src/Storage/Session/Retry.antt =====
-- An authenticated call makes a bounded number of exchanges, and renews a token that has expired.
use storage_bot.Base.{
  ℕ, suc, ◌+◌, ◌≤◌, ◌<◌, ◌≡◌, ◌≢◌, refl, inl, inr, false, [], ◌∷◌, arith, Text, lit, leb, ◌==◌,
  Bool-cases,
}
use storage_bot.Base.Result.{Result, err, ok}
use storage_bot.Storage.Session.{
  Request, reply, Query, Net, Account, Session, login_request, token_of, keep_token, ensure_token,
  full_url, send, send_with, do_request, retry, answer_of, authed, authed_get, authed_post,
}

-- A counter of the world that an exchange raises by one at most.
abbrev pub Counts : {W : Type 0} → Net W → (W → ℕ) → Type 0
Counts {W} net cost = (w : W) (r : Request) → cost (net.exchange w r).1 ≤ suc (cost w)

module _ {W : Type 0} (net : Net W) (a : Account) (cost : W → ℕ) where
  keep_token-world : (r : Result Text) (w : W) → (keep_token net a r w).1.world ≡ w
  unfolding keep_token
  keep_token-world (err e) w = refl
  keep_token-world (ok t) w = refl

  ensure_token-cost :
      (s : Session W) → Counts net cost → cost (ensure_token net a s).1.world ≤ suc (cost s.world)
  unfolding ensure_token
  ensure_token-cost s h = go s.token
    where
      go :
          (t : Text)
          → cost
              (elim t as (λ _. Result Text × Session W) [
                | [] ↦
                    let (r, w) = net.exchange s.world (login_request net a) in
                    keep_token net a (token_of net a r) w
                | c ∷ u ↦ (ok (c ∷ u), s)
              ]).1.world
            ≤ suc (cost s.world)
      go [] =
          rw
            (keep_token-world (token_of net a (net.exchange s.world (login_request net a)).0)
              (net.exchange s.world (login_request net a)).1)
            (h s.world (login_request net a))
      go (c ∷ u) = omega arith

  send_with-cost :
      (method path : Text) (query : Query) (body : Text) (r : Result Text) (s : Session W)
      → Counts net cost
      → cost (send_with net a method path query body (r, s)).1.world ≤ suc (cost s.world)
  unfolding send_with send
  send_with-cost method path query body (err e) s h = omega arith
  send_with-cost method path query body (ok token) s h =
      h s.world
        (record { method = method; url = full_url net a path query; token = token; body = body })

  do_request-cost :
      (method path : Text) (query : Query) (body : Text) (s : Session W)
      → Counts net cost
      → cost (do_request net a method path query body s).1.world ≤ 2 + cost s.world
  unfolding do_request
  do_request-cost method path query body s h = omega (
    arith,
    ensure_token-cost s h,
    send_with-cost method path query body (ensure_token net a s).0 (ensure_token net a s).1 h,
  )

  retry-cost :
      (method path : Text) (query : Query) (body : Text) (r : Result (ℕ × Text)) (s : Session W)
      → Counts net cost
      → cost (retry net a method path query body (r, s)).1.world ≤ 2 + cost s.world
  unfolding retry
  retry-cost method path query body (err e) s h = omega arith
  retry-cost method path query body (ok (status, answer)) s h = elim (Bool-cases (status == 401)) [
    | inl e ↦
        rw e (do_request-cost method path query body (record { token = []; world = s.world }) h)
    | inr e ↦ rw e (omega arith)
  ]

  authed-cost :
      (method path : Text) (query : Query) (body : Text) (s : Session W)
      → Counts net cost
      → cost (authed net a method path query body s).1.world ≤ 4 + cost s.world
  unfolding authed
  authed-cost method path query body s h =
      let r = do_request net a method path query body s in
      omega (
        arith,
        do_request-cost method path query body s h,
        retry-cost method path query body r.0 r.1 h,
      )

  -- With any counter that an exchange raises by one at most, a call of authedGet and a call of
  -- authedPost each raise it by four at most.
  pub authed-costs :
      (path : Text) (query payload : Query) (s : Session W)
      → Counts net cost
      → (cost (authed_get net a path query s).1.world ≤ 4 + cost s.world)
        × (cost (authed_post net a path query payload s).1.world ≤ 4 + cost s.world)
  unfolding authed_get authed_post
  authed-costs path query payload s h = (
    authed-cost (lit "GET") path query [] s h,
    authed-cost (lit "POST") path query (net.marshal payload) s h,
  )

-- A cached token that the server no longer takes: it answers 401 to the request with the token, and
-- the login that follows yields a token that it answers with a status below 400.
pub record Renewal {W : Type 0} (net : Net W) (a : Account) (s : Session W) (path : Text)
    (query : Query) (renewed answer : Text) (status : ℕ) (w_end : W) : Type 0 where
  pub old_answer : Text
  pub login_status : ℕ
  pub login_answer : Text
  pub w1 : W
  pub w2 : W
  pub cached : s.token ≢ []
  pub fresh : renewed ≢ []
  pub refused :
      net.exchange s.world
        (record { method = lit "GET"; url = full_url net a path query; token = s.token; body = [] })
      ≡ (reply 401 old_answer, w1)
  pub logged_in : net.exchange w1 (login_request net a) ≡ (reply login_status login_answer, w2)
  pub login_fine : login_status < 400
  pub gives_token : net.login_token login_answer ≡ ok renewed
  pub answered :
      net.exchange w2
        (record { method = lit "GET"; url = full_url net a path query; token = renewed; body = [] })
      ≡ (reply status answer, w_end)
  pub fine : status < 400

module _ {W : Type 0} (net : Net W) (a : Account) where
  ensure_token_cached : (s : Session W) → s.token ≢ [] → ensure_token net a s ≡ (ok s.token, s)
  unfolding ensure_token
  ensure_token_cached s h = go s.token h
    where
      go :
          (t : Text)
          → t ≢ []
          → (elim t as (λ _. Result Text × Session W) [
            | [] ↦
                let (r, w) = net.exchange s.world (login_request net a) in
                keep_token net a (token_of net a r) w
            | c ∷ u ↦ (ok (c ∷ u), s)
          ])
            ≡ (ok t, s)
      go [] k = absurd (k refl)
      go (c ∷ u) k = refl

  token_of_fine :
      (status : ℕ) (body token : Text)
      → status < 400
      → net.login_token body ≡ ok token
      → token ≢ []
      → token_of net a (reply status body) ≡ ok token
  unfolding token_of
  token_of_fine status body [] l e n = absurd (n refl)
  token_of_fine status body (c ∷ t) l e n =
      let below : leb 400 status ≡ false = ground arith in rw (below, e)

  ensure_token_login :
      (w w2 : W) (status : ℕ) (body token : Text)
      → net.exchange w (login_request net a) ≡ (reply status body, w2)
      → token_of net a (reply status body) ≡ ok token
      → ensure_token net a (record { token = []; world = w })
        ≡ (ok token, record { token = token; world = w2 })
  unfolding ensure_token keep_token
  ensure_token_login w w2 status body token e k = rw (e, k)

  do_request_answered :
      (method path : Text) (query : Query) (body token answer : Text) (status : ℕ) (w : W)
      (s t : Session W)
      → ensure_token net a s ≡ (ok token, t)
      → net.exchange t.world
          (record { method = method; url = full_url net a path query; token = token; body = body })
        ≡ (reply status answer, w)
      → do_request net a method path query body s
        ≡ (ok (status, answer), record { token = t.token; world = w })
  unfolding do_request send_with send
  do_request_answered method path query body token answer status w s t e k = rw (e, k)

  -- Where the cached token has expired and a login gives a new one that the server takes, authedGet
  -- returns the answer to the second request, and keeps the new token for the calls to come.
  pub authed_get_renews :
      (s : Session W) (path : Text) (query : Query) (renewed answer : Text) (status : ℕ) (w_end : W)
      → Renewal net a s path query renewed answer status w_end
      → authed_get net a path query s
        ≡ (ok (net.pretty_json answer), record { token = renewed; world = w_end })
  unfolding authed_get authed retry answer_of
  authed_get_renews s path query renewed answer status w_end r =
      let first =
        do_request_answered (lit "GET") path query [] s.token r.old_answer 401 r.w1 s s
          (ensure_token_cached s r.cached) r.refused in
      let login =
        ensure_token_login r.w1 r.w2 r.login_status r.login_answer renewed r.logged_in (
          token_of_fine r.login_status r.login_answer renewed r.login_fine r.gives_token r.fresh) in
      let second =
        do_request_answered (lit "GET") path query [] renewed answer status w_end
          (record { token = []; world = r.w1 }) (record { token = renewed; world = r.w2 }) login
          r.answered in
      let below : leb 400 status ≡ false = let l = r.fine in ground arith in
      rw (first, second, below)
