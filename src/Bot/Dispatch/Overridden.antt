-- ===== src/Bot/Dispatch/Overridden.antt =====
-- bot/handler.go: the language model's answer replaces the actions that name no cluster.
use storage_bot.Base.{
  ◌⊎◌, ◌≡◌, refl, subst, inl, inr, true, not, ◌&&◌, [], arith, Text, Option, none, some, Bool-cases,
  text_eq, if◌then◌else◌,
}
use storage_bot.Base.Result.{Result, err, ok}
use storage_bot.Cluster.Nodes.{list}
use storage_bot.Intent.{action_rest_storage, action_inspect, needs_fallback}
use storage_bot.Intent.Parse.{Action}
use storage_bot.Intent.Parse.Stored.{parse_with_all-NoCluster}
use storage_bot.Intent.Fallback.{Model, parse_with_llm}
use storage_bot.Intent.Fallback.Kinds.{Simple, parse_with_llm-Simple}
use storage_bot.Bot.State.{State}
use storage_bot.Bot.Dispatch.{Bot, or_regex, with_model, by_rules, understood}

-- A query of a REST storage, or an inspection of all clusters.
abbrev pub IsGlobal : Action → Type 0
IsGlobal a = (a.type ≡ action_rest_storage) ⊎ ((a.type ≡ action_inspect) × (a.cluster_name ≡ []))

not_simple : (a : Action) → Simple a.type → IsGlobal a → ⊥
not_simple a (s, i) (inl h) = s h
not_simple a (s, i) (inr (h, n)) = i h

module _ {W K F : Type 0} (bot : Bot W K F) where
  or_regex-Global :
      (a : Action) (r : Result Action × W) (st : State W K)
      → ((b : Action) → r.0 ≡ ok b → Simple b.type)
      → IsGlobal (or_regex bot a r st).0
      → (reason : Text) × (r.0 ≡ err reason)
  unfolding or_regex
  or_regex-Global a (err e, w) st h k = (e, refl)
  or_regex-Global a (ok b, w) st h k = absurd (not_simple b (h b refl) k)

  -- No language model, or it is switched off, or it answers with an error.
  abbrev pub NoAnswer : Text → State W K → Type 0
  NoAnswer text st =
      (bot.model ≡ none)
      ⊎ (st.llm_disabled ≡ true)
      ⊎ ((m : Model W) × (bot.model ≡ some m)
          × (reason : Text) × ((parse_with_llm m text (list st.manager) st.world).0 ≡ err reason))

  with_model-Global :
      (o : Option (Model W)) (text : Text) (a : Action) (st : State W K)
      → bot.model ≡ o
      → (IsGlobal a → needs_fallback a.type a.cluster_name ≡ true)
      → IsGlobal (with_model bot o text a st).0
      → NoAnswer text st
  unfolding with_model
  with_model-Global none text a st h needs g = inl h
  with_model-Global (some m) text a st h needs g =
      let asked = or_regex bot a (parse_with_llm m text (list st.manager) st.world) st in
      let tried = needs_fallback a.type a.cluster_name && not st.llm_disabled in
      let out : Action × State W K = if tried then asked else (a, st) in
      elim (Bool-cases tried) [
        | inl e ↦
            let same : out ≡ asked = rw e refl in
            let (reason, failed) =
              or_regex-Global a (parse_with_llm m text (list st.manager) st.world) st
                (parse_with_llm-Simple m text (list st.manager) st.world)
                (subst (λ r. IsGlobal r.0) same g) in
            inr (inr (m, h, reason, failed))
        | inr e ↦
            let same : out ≡ (a, st) = rw e refl in
            let needed = needs (subst (λ r. IsGlobal r.0) same g) in inr (inl (ground arith))
      ]

  by_rules-Fallback :
      (text : Text) (st : State W K)
      → IsGlobal (by_rules bot text st)
      → needs_fallback (by_rules bot text st).type (by_rules bot text st).cluster_name ≡ true
  unfolding by_rules needs_fallback text_eq
  by_rules-Fallback text st (inl h) = rw (h, parse_with_all-NoCluster _ text h) refl
  by_rules-Fallback text st (inr (h, n)) = rw (h, n) refl

  -- A message leads to a query of a REST storage, or to an inspection of all clusters, only if there is
  -- no language model, it is switched off, or it answers this message with an error.
  pub global-NoAnswer :
      (text : Text) (st : State W K) → IsGlobal (understood bot text st).0 → NoAnswer text st
  unfolding understood
  global-NoAnswer text st g =
      with_model-Global bot.model text (by_rules bot text st) st refl (by_rules-Fallback text st) g
