-- ===== src/Bot/Skills/Broadcast.antt =====
-- Which clusters a skill reaches, and what a failure on one of them does to the others.
use storage_bot.Base.{
  ◌≡◌, refl, sym, ap, ◌∙◌, inl, inr, true, false, List, [], ◌∷◌, arith, Text, lit, text_eq,
  text_eq_iff, Option, none, some, Bool-cases, In, All, map, any, trim_suffix, has_suffix, if_intro,
  contains, to_lower,
}
use storage_bot.Base.Result.{Result, ok}
use storage_bot.Cluster.{
  matches_of, list_by_prefix, find_by_prefix, Lookup, found, no_match, ambiguous,
}
use storage_bot.Cluster.Nodes.{ClusterConfig, Manager, list}
use storage_bot.Bot.State.{Skill, Env, State, skill_named, get_skill, is_broadcast_allowed}
use storage_bot.Bot.Skills.{
  SkillAction, dry_text, run_skill_on_cluster, run_on_clusters, handle_skill_on_clusters, remaining,
  broadcast, single, prefixed, by_name, with_skill, handle_skill,
}

-- The cluster is configured, and none of the excluded ones.
abbrev pub Chosen : {K : Type 0} → SkillAction → Manager K → Text → Type 0
Chosen action m c = In c (list m) × (any (λ e. text_eq e c) action.exclude_clusters ≡ false)

matches_of-list :
    {C : Type 0} (m : List (Text × C)) (lower c : Text)
    → In c (matches_of m lower)
    → In c (map (λ e. e.0) m)
unfolding matches_of
matches_of-list [] lower c h = h
matches_of-list ((k, v) ∷ m) lower c h =
    if_intro (λ l. In c l → In c (k ∷ map (λ e. e.0) m)) (contains (to_lower k) lower)
      (k ∷ matches_of m lower) (matches_of m lower)
      (λ e i. elim i [ inl d ↦ inl d | inr n ↦ inr (matches_of-list m lower c n) ])
      (λ e i. inr (matches_of-list m lower c i)) h

remaining-All :
    {P : Text → Type 0} (excludes cs : List Text)
    → ((c : Text) → In c cs → P c)
    → All (λ c. P c × (any (λ e. text_eq e c) excludes ≡ false)) (remaining excludes cs)
unfolding remaining
remaining-All excludes [] h = tt
remaining-All excludes (c ∷ cs) h = elim (Bool-cases (any (λ e. text_eq e c) excludes)) [
  | inl e ↦ rw e (remaining-All excludes cs (λ d i. h d (inr i)))
  | inr e ↦ rw e ((h c (inl refl), e), remaining-All excludes cs (λ d i. h d (inr i)))
]

skill_named-name :
    {W : Type 0} (ss : List (Skill W)) (name : Text) (s : Skill W)
    → skill_named ss name ≡ some s
    → s.name ≡ name
unfolding skill_named
skill_named-name [] name s h = cc
skill_named-name (t ∷ ss) name s h = elim (Bool-cases (text_eq t.name name)) [
  | inl e ↦
      let same : t ≡ s = ground arith in ap (λ x. x.name) (sym same) ∙ (text_eq_iff t.name name).0 e
  | inr e ↦ skill_named-name ss name s (ground arith)
]

module _ {W K : Type 0} (env : Env W K) where
  -- What a message that asks for a skill does: nothing; the skill runs on the one cluster that the
  -- name finds; or it runs on chosen clusters, which only the skills do that may be broadcast.
  pub data Deed (action : SkillAction) (st : State W K) (r : Result Text × State W K) : Type 0 where
    untouched : r.1 ≡ st → Deed action st r
    alone :
        (s : Skill W) (name : Text) (cfg : ClusterConfig)
        → get_skill env action.skill_name ≡ some s
        → find_by_prefix st.manager.clusters action.cluster_name ≡ found name cfg
        → env.dry_run ≡ false
        → r ≡ run_skill_on_cluster env s name cfg action.node_name action.args st
        → Deed action st r
    on_chosen :
        (s : Skill W) (cs : List Text)
        → s.name ≡ action.skill_name
        → is_broadcast_allowed action.skill_name ≡ true
        → All (Chosen action st.manager) cs
        → r.1 ≡ (run_on_clusters env s cs st).1
        → Deed action st r

  module _ (s : Skill W) (action : SkillAction) (st : State W K)
      (named : get_skill env action.skill_name ≡ some s) where
    broadcast-Deed :
        (cs : List Text)
        → is_broadcast_allowed action.skill_name ≡ true
        → All (Chosen action st.manager) cs
        → Deed action st (broadcast env s action.exclude_clusters cs st)
    unfolding broadcast handle_skill_on_clusters get_skill
    broadcast-Deed [] b h = untouched refl
    broadcast-Deed (c ∷ cs) b h =
        on_chosen s (c ∷ cs) (skill_named-name env.skills action.skill_name s named) b h refl

    prefixed-Deed :
        (prefix : Text) (cs : List Text)
        → is_broadcast_allowed action.skill_name ≡ true
        → ((c : Text) → In c cs → In c (list st.manager))
        → Deed action st (prefixed env s action prefix cs st)
    unfolding prefixed
    prefixed-Deed prefix [] b h = untouched refl
    prefixed-Deed prefix (c ∷ cs) b h =
        broadcast-Deed (remaining action.exclude_clusters (c ∷ cs)) b
          (remaining-All action.exclude_clusters (c ∷ cs) h)

    single-Deed :
        (l : Lookup ClusterConfig)
        → find_by_prefix st.manager.clusters action.cluster_name ≡ l
        → Deed action st (single env s action l st)
    unfolding single
    single-Deed (found name cfg) h =
        if_intro (Deed action st) env.dry_run (ok (dry_text env s name), st)
          (run_skill_on_cluster env s name cfg action.node_name action.args st)
          (λ e. untouched refl) (λ e. alone s name cfg named h e refl)
    single-Deed no_match h = untouched refl
    single-Deed (ambiguous ns) h = untouched refl

    by_name-Deed : Deed action st (by_name env s action st)
    unfolding by_name list list_by_prefix
    by_name-Deed = elim (Bool-cases (text_eq action.cluster_name (lit "all"))) [
      | inl e ↦ elim (Bool-cases (is_broadcast_allowed action.skill_name)) [
        | inl b ↦
            rw (e, b)
              (broadcast-Deed (remaining action.exclude_clusters (list st.manager)) b
                (remaining-All action.exclude_clusters (list st.manager) (λ c i. i)))
        | inr b ↦ rw (e, b) (untouched refl)
      ]
      | inr e ↦ elim (Bool-cases (has_suffix action.cluster_name (lit "*"))) [
        | inl k ↦ elim (Bool-cases (is_broadcast_allowed action.skill_name)) [
          | inl b ↦
              rw (e, k, b)
                (prefixed-Deed (trim_suffix action.cluster_name (lit "*"))
                  (list_by_prefix st.manager.clusters (trim_suffix action.cluster_name (lit "*"))) b
                  (λ c i.
                    matches_of-list st.manager.clusters
                      (to_lower (trim_suffix action.cluster_name (lit "*"))) c i))
          | inr b ↦ rw (e, k, b) (untouched refl)
        ]
        | inr k ↦ elim (Bool-cases (text_eq action.cluster_name [])) [
          | inl n ↦ rw (e, k, n) (untouched refl)
          | inr n ↦
              rw (e, k, n)
                (single-Deed (find_by_prefix st.manager.clusters action.cluster_name) refl)
        ]
      ]
    ]

  with_skill-Deed :
      (action : SkillAction) (st : State W K) (o : Option (Skill W))
      → get_skill env action.skill_name ≡ o
      → Deed action st (with_skill env action o st)
  unfolding with_skill
  with_skill-Deed action st none h = untouched refl
  with_skill-Deed action st (some s) h = by_name-Deed s action st h

  -- A message that asks for a skill changes nothing; or, outside a dry run, it runs the skill on the
  -- one cluster that its name finds; or it runs the skill on several clusters. Then the skill is one
  -- of those that may be broadcast, each of the clusters is configured, and none of them is excluded.
  pub handle_skill-Deed :
      (action : SkillAction) (st : State W K) → Deed action st (handle_skill env action st)
  unfolding handle_skill
  handle_skill-Deed action st = with_skill-Deed action st (get_skill env action.skill_name) refl
