-- ===== src/Bot/State/Keeps.antt =====
-- What the calls on the state leave alone.
use storage_bot.Base.{
  ◌≡◌, refl, ap, ◌∙◌, List, [], ◌∷◌, text_lt, if◌then◌else◌, Text, Option, none, some, if_intro,
}
use storage_bot.Base.Result.{Result, err, ok}
use storage_bot.Cluster.{get}
use storage_bot.Cluster.Nodes.{ClusterConfig}
use storage_bot.Bot.State.{
  Env, State, Skill, insert_skill, sort_skills, skill_lines, skill_list, list_skills, connected,
  cached_or, get_kube_executor, echoed, analyzed, analyze_with, analyze_or_echo,
}

module _ {W K : Type 0} (env : Env W K) where
  connected-manager :
      (name : Text) (r : Result K × W) (st : State W K)
      → (connected env name r st).1.manager ≡ st.manager
  unfolding connected
  connected-manager name (err e, w) st = refl
  connected-manager name (ok k, w) st = refl

  cached_or-manager :
      (name : Text) (cfg : ClusterConfig) (o : Option K) (st : State W K)
      → (cached_or env name cfg o st).1.manager ≡ st.manager
  unfolding cached_or
  cached_or-manager name cfg none st = connected-manager name (env.kube.connect cfg st.world) st
  cached_or-manager name cfg (some k) st = refl

  pub get_kube_executor-manager :
      (name : Text) (cfg : ClusterConfig) (st : State W K)
      → (get_kube_executor env name cfg st).1.manager ≡ st.manager
  unfolding get_kube_executor
  get_kube_executor-manager name cfg st = cached_or-manager name cfg (get st.kube_cache name) st

  analyzed-manager :
      (diagnostics : Text) (r : Result Text × W) (st : State W K)
      → (analyzed env diagnostics r st).1.manager ≡ st.manager
  unfolding analyzed
  analyzed-manager diagnostics (err e, w) st = refl
  analyzed-manager diagnostics (ok a, w) st = refl

  analyze_with-manager :
      (f : Option (Text → Text → W → Result Text × W)) (cluster diagnostics : Text) (st : State W K)
      → (analyze_with env f cluster diagnostics st).1.manager ≡ st.manager
  unfolding analyze_with
  analyze_with-manager none cluster diagnostics st = refl
  analyze_with-manager (some f) cluster diagnostics st =
      if_intro (λ r. r.1.manager ≡ st.manager) st.llm_disabled (echoed env diagnostics, st)
        (analyzed env diagnostics (f cluster diagnostics st.world) st) (λ e. refl)
        (λ e. analyzed-manager diagnostics (f cluster diagnostics st.world) st)

  pub analyze_or_echo-manager :
      (cluster diagnostics : Text) (st : State W K)
      → (analyze_or_echo env cluster diagnostics st).1.manager ≡ st.manager
  unfolding analyze_or_echo
  analyze_or_echo-manager cluster diagnostics st =
      analyze_with-manager env.analyzer cluster diagnostics st

-- The list of the skills is made from the skills alone.
module _ {W K : Type 0} (env other : Env W K) where
  insert_skill-Same :
      (s : Skill W) (ts : List (Skill W)) → insert_skill env s ts ≡ insert_skill other s ts
  unfolding insert_skill
  insert_skill-Same s [] = refl
  insert_skill-Same s (t ∷ ts) =
      ap (λ l. if text_lt t.name s.name then t ∷ l else s ∷ t ∷ ts) (insert_skill-Same s ts)

  sort_skills-Same : (ss : List (Skill W)) → sort_skills env ss ≡ sort_skills other ss
  unfolding sort_skills
  sort_skills-Same [] = refl
  sort_skills-Same (s ∷ ss) =
      ap (insert_skill env s) (sort_skills-Same ss) ∙ insert_skill-Same s (sort_skills other ss)

  skill_lines-Same : (ss : List (Skill W)) → skill_lines env ss ≡ skill_lines other ss
  unfolding skill_lines
  skill_lines-Same [] = refl
  skill_lines-Same (s ∷ ss) = rw (skill_lines-Same ss) refl

  skill_list-Same : (ss : List (Skill W)) → skill_list env ss ≡ skill_list other ss
  unfolding skill_list
  skill_list-Same [] = refl
  skill_list-Same (s ∷ ss) =
      rw (sort_skills-Same (s ∷ ss), skill_lines-Same (sort_skills other (s ∷ ss))) refl

  pub list_skills-Same : env.skills ≡ other.skills → list_skills env ≡ list_skills other
  unfolding list_skills
  list_skills-Same e = skill_list-Same env.skills ∙ ap (skill_list other) e
