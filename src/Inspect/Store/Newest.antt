-- ===== src/Inspect/Store/Newest.antt =====
-- What is kept of a cluster's reports.
use storage_bot.Base.{
  ℕ, zero, suc, ◌∙◌, ◌≡◌, ap, subst, arith, min, List, [], ◌∷◌, Text, none, take, drop, length, All,
  sort_texts, text_lt, keep, map, Bool, false,
}
use storage_bot.Base.Sort.Order.{
  IsDescending, sort_texts-IsAscending, reverse-IsDescending, drop-after-take,
}
use storage_bot.Base.Result.{Result, err, ok}
use storage_bot.Inspect.Store.{
  Files, Listing, missing, unreadable, entries, is_report, newest_first, list, pruned, prune,
  remove_all,
}

abbrev Descends : Result (List Text) → Type 0
Descends (err e) = Unit
Descends (ok names) = IsDescending names

newest_first-Descends : (l : Listing) → Descends (newest_first l)
unfolding newest_first
newest_first-Descends missing = tt
newest_first-Descends (unreadable e) = tt
newest_first-Descends (entries es) =
    let names = map (λ (e : Text × Bool). e.0) (keep is_report es) in
    reverse-IsDescending (sort_texts names) (sort_texts-IsAscending names)

drop-min : {A : Type 0} (n : ℕ) (xs : List A) → drop (min (length xs) n) xs ≡ drop n xs
drop-min zero [] = let e : min 0 0 ≡ 0 = omega arith in ap (λ k. drop k []) e
drop-min (suc n) [] = let e : min 0 (suc n) ≡ 0 = omega arith in ap (λ k. drop k []) e
drop-min zero (x ∷ xs) =
    let e : min (suc (length xs)) 0 ≡ 0 = omega arith in ap (λ k. drop k (x ∷ xs)) e
drop-min (suc n) (x ∷ xs) =
    let e : min (suc (length xs)) (suc n) ≡ suc (min (length xs) n) = omega arith in
    ap (λ k. drop k (x ∷ xs)) e ∙ drop-min n xs

-- When a cluster's reports can be listed, pruning removes exactly those beyond the first `most` of
-- the list, which runs from the last name to the first: no removed name is after a kept one.
pub prune_lem :
    {W : Type 0} (fs : Files W) (most : ℕ) (cluster : Text) (w : W) (names : List Text)
    → list fs cluster w ≡ ok names
    → (prune fs most cluster w ≡ (none, remove_all fs cluster (drop most names) w))
      × IsDescending names
      × All (λ old. All (λ new. text_lt new old ≡ false) (take most names)) (drop most names)
unfolding prune pruned list
prune_lem fs most cluster w names e =
    let descending : IsDescending names =
      subst Descends e (newest_first-Descends (fs.read_dir cluster w)) in
    (
      ap (λ r. pruned fs most cluster r w) e
          ∙ ap (λ l. (none, remove_all fs cluster l w)) (drop-min most names),
      descending,
      drop-after-take most names descending,
    )
