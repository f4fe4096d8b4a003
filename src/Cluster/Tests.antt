-- ===== src/Cluster/Tests.antt =====
-- Lookups of clusters, and their theorem at a concrete input.
use storage_bot.Base.{
  ℕ, ◌≡◌, refl, Option, none, some, List, [], ◌∷◌, Text, lit, trim_space, to_lower,
}
use storage_bot.Base
use storage_bot.Cluster.{get, found, list_by_prefix, find_by_prefix}
use storage_bot.Cluster.Answer.{Answers, find_by_prefix-Answers}

manager : Unit {0}
unfolding get list_by_prefix find_by_prefix Base.lit Base.text_eq Base.contains Base.has_prefix
    Base.trim_space Base.to_lower
manager = tt

abbrev fleet : List (Text × ℕ)
fleet = (lit "cdn-01", 1) ∷ (lit "cdn-02", 2) ∷ (lit "CDN-01-test", 3) ∷ []

exact : find_by_prefix fleet (lit " CDN-01 ") ≡ found (lit "cdn-01") 1
unfolding manager
exact = refl

only : find_by_prefix fleet (lit "02") ≡ found (lit "cdn-02") 2
unfolding manager
only = refl

in_capitals : find_by_prefix fleet (lit "test") ≡ found (lit "CDN-01-test") 3
unfolding manager
in_capitals = refl

by_prefix : list_by_prefix fleet (lit "-01") ≡ lit "cdn-01" ∷ lit "CDN-01-test" ∷ []
unfolding manager
by_prefix = refl

find_by_prefix-Answers_example :
    Answers fleet (trim_space (to_lower (lit "cdn"))) (find_by_prefix fleet (lit "cdn"))
find_by_prefix-Answers_example = find_by_prefix-Answers fleet (lit "cdn")
