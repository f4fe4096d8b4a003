-- ===== src/Cluster.antt =====
-- cluster/manager.go: the lookups in the configured clusters. The map is an association list, in the
-- order in which a range over it happens to go.
pub mod Answer
pub mod Nodes
mod Tests
use storage_bot.Base.{
  Bool, true, false, List, [], ◌∷◌, Text, text_eq, if◌then◌else◌, contains, to_lower, trim_space,
  Option, none, some,
}

-- A cluster, none that matches, or several.
pub data Lookup (C : Type 0) : Type 0 where
  found : Text → C → Lookup C
  no_match : Lookup C
  ambiguous : List Text → Lookup C

module _ {C : Type 0} where
  -- m.clusters[name]; Get.
  unfoldable pub get : List (Text × C) → Text → Option C
  get [] name = none
  get ((k, c) ∷ m) name = if text_eq k name then some c else get m name

  unfoldable pub matches_of : List (Text × C) → Text → List Text
  matches_of [] lower = []
  matches_of ((k, c) ∷ m) lower =
      let rest = matches_of m lower in if contains (to_lower k) lower then k ∷ rest else rest

  unfoldable pub list_by_prefix : List (Text × C) → Text → List Text
  unfolding matches_of
  list_by_prefix m prefix = matches_of m (to_lower prefix)

  one_match : List (Text × C) → Text → Option C → Lookup C
  one_match m n none = no_match
  one_match m n (some c) = found n c

  pub by_matches : List (Text × C) → List Text → Lookup C
  unfolding one_match
  by_matches m [] = no_match
  by_matches m (n ∷ []) = one_match m n (get m n)
  by_matches m (n ∷ n2 ∷ ns) = ambiguous (n ∷ n2 ∷ ns)

  by_exact : List (Text × C) → Text → Option C → Lookup C
  unfolding by_matches matches_of
  by_exact m input (some c) = found input c
  by_exact m input none = by_matches m (matches_of m input)

  unfoldable pub find_by_prefix : List (Text × C) → Text → Lookup C
  unfolding by_exact
  find_by_prefix m input = let key = trim_space (to_lower input) in by_exact m key (get m key)
