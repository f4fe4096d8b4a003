-- ===== src/Storage/Session.antt =====
-- storage/yanrong.go: the authenticated requests. The session is the cached token and the world that
-- the requests meet; the mutex makes each use of the token one step.
pub mod Retry
use storage_bot.Base.{
  ℕ, Bool, true, false, List, [], ◌∷◌, ◌++◌, Text, lit, if◌then◌else◌, leb, ◌==◌, Option, none,
  some,
}
use storage_bot.Base.Int.{pos}
use storage_bot.Base.Decimal.{itoa}
use storage_bot.Base.Result.{Result, err, ok}

pub record Request : Type 0 where
  pub method : Text
  pub url : Text
  pub token : Text
  pub body : Text

-- What client.Do and io.ReadAll give: an error, or the status and the body.
pub data Reply : Type 0 where
  failed : Text → Reply
  reply : ℕ → Text → Reply

abbrev pub Query : Type 0
Query = List (Text × Text)

-- The packages that the backend calls: net/http with the server behind it, net/url, encoding/json,
-- and crypto/md5 with encoding/hex. `login_token` is the field data.token of a login reply.
pub record Net (W : Type 0) : Type 0 where
  pub exchange : W → Request → Reply × W
  pub encode_query : Query → Text
  pub marshal : Query → Text
  pub login_token : Text → Result Text
  pub pretty_json : Text → Text
  pub md5_hex : Text → Text

pub record Account : Type 0 where
  pub base_url : Text
  pub username : Text
  pub password : Text

pub record Session (W : Type 0) : Type 0 where
  pub token : Text
  pub world : W

interleave : Text → Text → Text
interleave [] t = []
interleave (a ∷ s) [] = []
interleave (a ∷ s) (b ∷ t) = a ∷ b ∷ interleave s t

module _ {W : Type 0} (net : Net W) (a : Account) where
  unfoldable pub yanrong_password_cipher : Text → Text
  unfolding interleave
  yanrong_password_cipher password =
      interleave (net.md5_hex password) (net.md5_hex (net.md5_hex password))

  pub login_request : Request
  unfolding yanrong_password_cipher
  login_request = record {
    method = lit "POST";
    url = a.base_url ++ lit "/api/auth/tokens";
    token = [];
    body =
        net.marshal (
          (lit "password", yanrong_password_cipher a.password) ∷ (lit "username", a.username) ∷ []);
  }

  -- What the login reply gives.
  token_of : Reply → Result Text
  token_of (failed e) = err (lit "yanrong login: " ++ e)
  token_of (reply status body) =
      if leb 400 status
      then err (lit "yanrong login " ++ (itoa (pos status) ++ (lit ": " ++ body)))
      else elim (net.login_token body) [
        | err e ↦ err (lit "parse login response: " ++ (e ++ (lit " (body=" ++ (body ++ lit ")"))))
        | ok [] ↦ err (lit "yanrong login returned empty token: " ++ body)
        | ok (c ∷ t) ↦ ok (c ∷ t)
      ]

  keep_token : Result Text → W → Result Text × Session W
  keep_token (err e) w = (err e, record { token = []; world = w })
  keep_token (ok t) w = (ok t, record { token = t; world = w })

  unfoldable pub ensure_token : Session W → Result Text × Session W
  unfolding login_request token_of keep_token
  ensure_token s = elim s.token [
    | [] ↦ let (r, w) = net.exchange s.world login_request in keep_token (token_of r) w
    | c ∷ t ↦ (ok (c ∷ t), s)
  ]

  pub full_url : Text → Query → Text
  full_url path [] = a.base_url ++ path
  full_url path (q ∷ qs) = a.base_url ++ (path ++ (lit "?" ++ net.encode_query (q ∷ qs)))

  -- The request with the token, and what is made of the reply.
  send : Text → Text → Query → Text → Text → Session W → Result (ℕ × Text) × Session W
  unfolding full_url
  send method path query body token s =
      let u = full_url path query in
      let (r, w) =
        net.exchange s.world (record { method = method; url = u; token = token; body = body }) in
      (
        elim r as (λ _. Result (ℕ × Text)) [
          | failed e ↦ err (method ++ (lit " " ++ (u ++ (lit ": " ++ e))))
          | reply status answer ↦ ok (status, answer)
        ],
        record { token = s.token; world = w },
      )

  send_with : Text → Text → Query → Text → Result Text × Session W → Result (ℕ × Text) × Session W
  unfolding send
  send_with method path query body (err e, s) = (err e, s)
  send_with method path query body (ok token, s) = send method path query body token s

  unfoldable pub do_request : Text → Text → Query → Text → Session W → Result (ℕ × Text) × Session W
  unfolding send_with
  do_request method path query body s = send_with method path query body (ensure_token s)

  -- A reply with status 401 to the first request drops the token, and the request is made again.
  retry : Text → Text → Query → Text → Result (ℕ × Text) × Session W → Result (ℕ × Text) × Session W
  retry method path query body (err e, s) = (err e, s)
  retry method path query body (ok (status, answer), s) =
      if status == 401
      then do_request method path query body (record { token = []; world = s.world })
      else (ok (status, answer), s)

  answer_of : Text → Text → Result (ℕ × Text) → Result Text
  answer_of method path (err e) = err e
  answer_of method path (ok (status, answer)) =
      if leb 400 status
      then err (
          method
          ++ (lit " "
              ++ (path ++ (lit " returned " ++ (itoa (pos status) ++ (lit ": " ++ answer))))))
      else ok (net.pretty_json answer)

  authed : Text → Text → Query → Text → Session W → Result Text × Session W
  unfolding retry answer_of
  authed method path query body s =
      let (r, t) = retry method path query body (do_request method path query body s) in
      (answer_of method path r, t)

  unfoldable pub authed_get : Text → Query → Session W → Result Text × Session W
  unfolding authed
  authed_get path query s = authed (lit "GET") path query [] s

  -- The payload is a table of texts.
  unfoldable pub authed_post : Text → Query → Query → Session W → Result Text × Session W
  unfolding authed
  authed_post path query payload s = authed (lit "POST") path query (net.marshal payload) s
