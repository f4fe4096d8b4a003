-- ===== src/Intent/Parse/Flags.antt =====
-- intent/parser.go: what becomes of a message that asks to unset nobackfill.
use storage_bot.Base.{
  ◌≡◌, ◌⊎◌, refl, sym, subst, inl, inr, true, ◌||◌, [], ◌∷◌, Text, lit, text_eq, if_intro, In,
  contains, to_lower,
}
use storage_bot.Intent.{
  action_toggle_llm, action_list_inspect, action_inspect, action_skill, first_skill,
  skill_alias_table,
}
use storage_bot.Intent.Order.{unset_before_set}
use storage_bot.Intent.Parse.{
  Action, Known, action_of, strip_mention, asks_items, asks_inspection, enables, restart_action,
  skill_action, aliased, inspection, parse_stripped, parse_with_all,
}

-- The skill that unsets the flag, or a restart.
abbrev pub UnsetOrRestart : Text → Type 0
UnsetOrRestart skill =
    In skill (lit "restart_mon" ∷ lit "restart_mgr" ∷ lit "unset_no_backfill" ∷ [])

-- The action, by the words of the message that are looked for first.
abbrev pub Understood : Text → Action → Type 0
Understood lower a =
    ((contains lower (lit "llm") ≡ true) × (a.type ≡ action_toggle_llm))
    ⊎ ((asks_items lower ≡ true) × (a.type ≡ action_list_inspect))
    ⊎ ((asks_inspection lower ≡ true) × (a.type ≡ action_inspect))
    ⊎ ((a.type ≡ action_skill) × UnsetOrRestart a.skill_name)

module _ (known : Known) where
  skill_action-named :
      (skill lower msg : Text)
      → ((skill_action known skill lower msg).type ≡ action_skill)
        × ((skill_action known skill lower msg).skill_name ≡ skill)
  unfolding skill_action restart_action
  skill_action-named skill lower msg =
      if_intro (λ a. (a.type ≡ action_skill) × (a.skill_name ≡ skill))
        (text_eq skill (lit "restart_mon") || text_eq skill (lit "restart_mgr"))
        (restart_action known skill lower msg) _ (λ e. (refl, refl)) (λ e. (refl, refl))

  aliased-unset :
      (lower msg : Text)
      → contains lower (lit "unset nobackfill") ≡ true
      → let a = aliased known (first_skill skill_alias_table lower) lower msg in
        (a.type ≡ action_skill) × UnsetOrRestart a.skill_name
  unfolding aliased
  aliased-unset lower msg h =
      let (s, found, m) = unset_before_set lower h in
      let (kind, name) = skill_action-named s lower msg in
      subst
        (λ o.
          ((aliased known o lower msg).type ≡ action_skill)
          × UnsetOrRestart (aliased known o lower msg).skill_name)
        (sym found) (kind, subst UnsetOrRestart (sym name) m)

  parse_stripped-unset :
      (lower msg : Text)
      → contains lower (lit "unset nobackfill") ≡ true
      → Understood lower (parse_stripped known lower msg)
  unfolding parse_stripped inspection
  parse_stripped-unset lower msg h =
      if_intro (Understood lower) (contains lower (lit "llm"))
        (record (action_of action_toggle_llm msg) { toggle_llm_enable = enables lower }) _
        (λ e. inl (e, refl))
        (λ e.
          if_intro (Understood lower) (asks_items lower) (action_of action_list_inspect msg) _
            (λ e. inr (inl (e, refl)))
            (λ e.
              if_intro (Understood lower) (asks_inspection lower) (inspection known lower msg) _
                (λ e. inr (inr (inl (e, refl))))
                (λ e. inr (inr (inr (aliased-unset lower msg h))))))

  -- A message that contains `unset nobackfill`, without mentions and in lower case, and so also contains
  -- `set nobackfill`, is never read as a command that sets the flag: it asks for the skill that unsets
  -- it or for a restart, or, where it has the words that are looked for before, it switches the language
  -- model or asks for an inspection or its list.
  pub parse_with_all-unset :
      (message : Text)
      → contains (to_lower (strip_mention message)) (lit "unset nobackfill") ≡ true
      → Understood (to_lower (strip_mention message)) (parse_with_all known message)
  unfolding parse_with_all
  parse_with_all-unset message h =
      let msg = strip_mention message in parse_stripped-unset (to_lower msg) msg h
