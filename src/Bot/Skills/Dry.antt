-- ===== src/Bot/Skills/Dry.antt =====
-- A skill in the dry run.
use storage_bot.Base.{
  ◌≡◌, refl, ap, ◌∙◌, Bool, true, false, List, [], ◌∷◌, Text, Option, none, some, if◌then◌else◌,
}
use storage_bot.Base.Result.{Result}
use storage_bot.Executor.{Wire}
use storage_bot.Cluster.{Lookup, found, no_match, ambiguous, find_by_prefix, get, list_by_prefix}
use storage_bot.Cluster.Nodes.{ClusterConfig, list}
use storage_bot.Base.{text_eq, lit, not, has_suffix, trim_suffix}
use storage_bot.Bot.State.{Env, State, Skill, clusters_text, get_skill, is_broadcast_allowed}
use storage_bot.Bot.State.Keeps.{list_skills-Same}
use storage_bot.Bot.Skills.{
  SkillAction, remaining, on_listed, run_on_clusters, handle_skill_on_clusters, broadcast, single,
  prefixed, by_name, with_skill, handle_skill,
}

pub same_if :
    {A : Type 0} (b : Bool) (x y z : A) → b ≡ true → (if b then x else y) ≡ (if b then x else z)
same_if true x y z h = refl
same_if false x y z h = absurd cc

both_if :
    {A : Type 0} (b : Bool) {x y z t : A}
    → x ≡ z
    → y ≡ t
    → (if b then x else y) ≡ (if b then z else t)
both_if true h k = h
both_if false h k = k

-- The same handler on other executors, and with another model or none.
abbrev pub rewired :
    {W K : Type 0}
    → Env W K
    → Wire W
    → (K → Wire W)
    → Option (Text → Text → W → Result Text × W)
    → Env W K
rewired env ssh wire analyzer = record env { ssh = ssh; wire = wire; analyzer = analyzer }

module _ {W K : Type 0} (env : Env W K) (dry : env.dry_run ≡ true) (ssh : Wire W)
    (wire : K → Wire W) (analyzer : Option (Text → Text → W → Result Text × W)) where
  abbrev other : Env W K
  other = rewired env ssh wire analyzer

  on_listed-Alike :
      (s : Skill W) (name : Text) (o : Option ClusterConfig) (st : State W K)
      → on_listed other s name o st ≡ on_listed env s name o st
  unfolding on_listed
  on_listed-Alike s name none st = refl
  on_listed-Alike s name (some cfg) st = same_if env.dry_run _ _ _ dry

  run_on_clusters-Alike :
      (s : Skill W) (cs : List Text) (st : State W K)
      → run_on_clusters other s cs st ≡ run_on_clusters env s cs st
  unfolding run_on_clusters
  run_on_clusters-Alike s [] st = refl
  run_on_clusters-Alike s (c ∷ cs) st =
      let one = on_listed-Alike s c (get st.manager.clusters c) st in
      ap (λ r. (r.0 ∷ (run_on_clusters other s cs r.1).0, (run_on_clusters other s cs r.1).1)) one
      ∙ ap (λ q. ((on_listed env s c (get st.manager.clusters c) st).0 ∷ q.0, q.1))
          (run_on_clusters-Alike s cs (on_listed env s c (get st.manager.clusters c) st).1)

  broadcast-Alike :
      (s : Skill W) (excludes cs : List Text) (st : State W K)
      → broadcast other s excludes cs st ≡ broadcast env s excludes cs st
  unfolding broadcast handle_skill_on_clusters
  broadcast-Alike s excludes [] st = refl
  broadcast-Alike s excludes (c ∷ cs) st = rw (run_on_clusters-Alike s (c ∷ cs) st) refl

  single-Alike :
      (s : Skill W) (action : SkillAction) (l : Lookup ClusterConfig) (st : State W K)
      → single other s action l st ≡ single env s action l st
  unfolding single
  single-Alike s action (found name cfg) st = same_if env.dry_run _ _ _ dry
  single-Alike s action no_match st = refl
  single-Alike s action (ambiguous ns) st = refl

  prefixed-Alike :
      (s : Skill W) (action : SkillAction) (prefix : Text) (cs : List Text) (st : State W K)
      → prefixed other s action prefix cs st ≡ prefixed env s action prefix cs st
  unfolding prefixed clusters_text
  prefixed-Alike s action prefix [] st = refl
  prefixed-Alike s action prefix (c ∷ cs) st =
      broadcast-Alike s action.exclude_clusters (remaining action.exclude_clusters (c ∷ cs)) st

  by_name-Alike :
      (s : Skill W) (action : SkillAction) (st : State W K)
      → by_name other s action st ≡ by_name env s action st
  unfolding by_name clusters_text
  by_name-Alike s action st =
      let prefix = trim_suffix action.cluster_name (lit "*") in
      both_if (text_eq action.cluster_name (lit "all"))
        (both_if (not (is_broadcast_allowed action.skill_name)) refl (
          broadcast-Alike s action.exclude_clusters
            (remaining action.exclude_clusters (list st.manager)) st))
        (both_if (has_suffix action.cluster_name (lit "*"))
          (both_if (not (is_broadcast_allowed action.skill_name)) refl
            (prefixed-Alike s action prefix (list_by_prefix st.manager.clusters prefix) st))
          (both_if (text_eq action.cluster_name []) refl
            (single-Alike s action (find_by_prefix st.manager.clusters action.cluster_name) st)))

  with_skill-Alike :
      (action : SkillAction) (o : Option (Skill W)) (st : State W K)
      → with_skill other action o st ≡ with_skill env action o st
  unfolding with_skill
  with_skill-Alike action none st = rw (list_skills-Same other env refl) refl
  with_skill-Alike action (some s) st = by_name-Alike s action st

  pub handle_skill-Alike :
      (action : SkillAction) (st : State W K)
      → handle_skill other action st ≡ handle_skill env action st
  unfolding handle_skill get_skill
  handle_skill-Alike action st = with_skill-Alike action (get_skill env action.skill_name) st
