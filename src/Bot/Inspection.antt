-- ===== src/Bot/Inspection.antt =====
-- bot/handler.go: an inspection that a message asks for.
pub mod Worst
mod Tests
use storage_bot.Base.{
  ℕ, Bool, true, false, List, [], ◌∷◌, ◌++◌, Text, lit, cat, text_eq, if◌then◌else◌, ltb, Option,
  none, some,
}
use storage_bot.Base.Result.{Result, err, ok}
use storage_bot.Cluster.Nodes.{Manager, list}
use storage_bot.Bot.State.{State}
use storage_bot.Inspect.Level.{Level, level_ok, level_warn, level_critical, level_unknown, Report}
use storage_bot.Inspect.Render.{render_text}
use storage_bot.Inspect.Whole.{Runner, run}

-- The constants of type Level, which `>` compares.
unfoldable pub as_int : Level → ℕ
as_int level_ok = 0
as_int level_warn = 1
as_int level_critical = 2
as_int level_unknown = 3

-- One answer: its text, and the worst level with it.
answer_text : (ℕ → Text) → Text → Result Report → Text
answer_text when name (err e) = cat (lit "❌ " ∷ name ∷ lit " 巡检失败：" ∷ e ∷ lit "\n" ∷ [])
answer_text when name (ok r) = render_text when r

pub worst_with : Result Report → Level → Level
worst_with (err e) worst = worst
worst_with (ok r) worst = if ltb (as_int worst) (as_int r.overall) then r.overall else worst

separated : Bool → Text → Text
separated true text = text
separated false text = lit "\n\n═══════════════\n\n" ++ text

module _ {M : Type 0} (runs : Text → M → Result Report × M) (when : ℕ → Text) where
  unfoldable pub inspect_each : Bool → List Text → Level → M → (Text × Level) × M
  unfolding answer_text worst_with separated
  inspect_each first [] worst m = (([], worst), m)
  inspect_each first (c ∷ cs) worst m =
      let (r, m1) = runs c m in
      let ((text, level), m2) = inspect_each false cs (worst_with r worst) m1 in
      ((separated first (answer_text when c r) ++ text, level), m2)

  inspect_targets : List Text → M → (Text × Level) × M
  inspect_targets [] m = ((lit "没有可巡检的集群", level_ok), m)
  inspect_targets (c ∷ cs) m = inspect_each true (c ∷ cs) level_ok m

targets_of : Text → List Text → List Text
targets_of [] all = all
targets_of (c ∷ s) all = (c ∷ s) ∷ []

module _ {W K F : Type 0} where
  run_in : Runner W K F → Text → State W K → Result Report × State W K
  run_in rn name st =
      let (r, m, w) = run rn name st.manager st.world in (r, record st { manager = m; world = w })

  unfoldable pub handle_inspect :
      Option (Runner W K F) → (ℕ → Text) → Text → State W K → (Text × Level) × State W K
  unfolding inspect_targets targets_of run_in
  handle_inspect none when cluster_name st =
      ((lit "巡检功能未启用（设置 config inspect.enabled: true）", level_ok), st)
  handle_inspect (some rn) when cluster_name st =
      inspect_targets (run_in rn) when (targets_of cluster_name (list st.manager)) st
