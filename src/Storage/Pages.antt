-- ===== src/Storage/Pages.antt =====
-- storage/yanrong.go: the lists that the server gives page by page.
pub mod Total
pub mod Honest
use storage_bot.Base.{
  ℕ, zero, suc, ◌+◌, ◌&&◌, ◌||◌, List, [], ◌∷◌, ◌++◌, Text, lit, if◌then◌else◌, ◌==◌, length,
  Option, none, some,
}
use storage_bot.Base.Int.{ℤ, pos, leb_ℤ}
use storage_bot.Base.Decimal.{itoa}
use storage_bot.Base.Result.{Result, err, ok}
use storage_bot.Storage.Session.{Query, Net, Account, Session, authed_get}

pub record PageSpec : Type 0 where
  pub endpoint : Text
  pub list_key : Text
  pub label : Text

-- What encoding/json makes of a page: the page is no JSON, has no list under the key, has one that
-- does not decode, or has a list and the total, 0 where there is none.
pub data Decoded (T : Type 0) : Type 0 where
  not_json : Text → Decoded T
  no_list : Decoded T
  bad_list : Text → Decoded T
  listed : List T → ℤ → Decoded T

module _ {W T : Type 0} (net : Net W) (a : Account) (decode : Text → Text → Decoded T)
    (spec : PageSpec) where
  page_query : ℕ → Query
  page_query page =
      (lit "page", itoa (pos page))
      ∷ (lit "page_size", itoa (pos 100))
      ∷ (lit "lang", lit "zh")
      ∷ []

  page_error : Text → ℕ → Text → Text
  page_error verb page e =
      verb ++ (spec.label ++ (lit " page " ++ (itoa (pos page) ++ (lit ": " ++ e))))

  batch_of : ℕ → Decoded T → Result (List T × ℤ)
  unfolding page_error
  batch_of page (not_json e) = err (page_error (lit "parse ") page e)
  batch_of page no_list = err (
      page_error (lit "parse ") page (lit "missing data." ++ (spec.list_key ++ lit " in response")))
  batch_of page (bad_list e) = err (page_error (lit "parse ") page (lit "decode list: " ++ e))
  batch_of page (listed batch total) = ok (batch, total)

  read_page : ℕ → Result Text → Result (List T × ℤ)
  unfolding batch_of page_error
  read_page page (err e) = err (page_error (lit "list ") page e)
  read_page page (ok raw) = batch_of page (decode spec.list_key raw)

  -- One round's request, and what is read from it.
  unfoldable pub fetch_page : ℕ → Session W → Result (List T × ℤ) × Session W
  unfolding read_page page_query
  fetch_page page s =
      let (r, t) = authed_get net a spec.endpoint (page_query page) s in (read_page page r, t)

  -- The loop from a page on, with what was collected; `none` is out of fuel.
  pub list_from : ℕ → ℕ → List T → Session W → Option (Result (List T) × Session W)
  unfolding fetch_page
  list_from zero page all s = none
  list_from (suc fuel) page all s =
      let (r, t) = fetch_page page s in
      elim r [
        | err e ↦ some (err e, t)
        | ok (batch, total) ↦
            let collected = all ++ batch in
            let further = list_from fuel (page + 1) collected t in
            if leb_ℤ total (pos 0) && leb_ℤ (pos 0) total || leb_ℤ total (pos (length collected))
            then some (ok collected, t)
            else if length batch == 0
            then some (ok collected, t)
            else further
      ]

  unfoldable pub list_paginated : ℕ → Session W → Option (Result (List T) × Session W)
  unfolding list_from
  list_paginated fuel s = list_from fuel 1 [] s
