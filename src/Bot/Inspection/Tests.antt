-- ===== src/Bot/Inspection/Tests.antt =====
-- Inspections of several clusters and their theorems at concrete inputs.
use storage_bot.Base.{
  ℕ, ◌+◌, ◌≡◌, refl, true, some, none, List, [], ◌∷◌, Text, lit, inl, inr, text_eq, if◌then◌else◌,
  length,
}
use storage_bot.Base
use storage_bot.Base.Result.{Result, err, ok}
use storage_bot.Inspect.Level.{Level, level_ok, level_warn, level_critical, level_unknown, Report}
use storage_bot.Inspect.Render.{theme_for_level, theme_green}
use storage_bot.Inspect.Whole.{Target, can_notify, target_clusters, tick_from, tick}
use storage_bot.Inspect.Whole.Counted.{answers, alarms, Counts, tick-Counts}
use storage_bot.Bot.Inspection.{inspect_each}
use storage_bot.Bot.Inspection.Worst.{HasLevel, unknown_masks}

abbrev leveled : Text → Level → Report
leveled name l = record {
  cluster = name;
  started_at = 0;
  duration = 0;
  overall = l;
  findings = [];
  llm_summary = [];
}

-- The cluster a is critical, b of unknown level, c warned about, and d cannot be inspected. The
-- world counts the calls.
abbrev answer : Text → Result Report
answer name =
    if text_eq name (lit "a")
    then ok (leveled name level_critical)
    else (if text_eq name (lit "b")
        then ok (leveled name level_unknown)
        else (if text_eq name (lit "c")
            then ok (leveled name level_warn)
            else err (lit "no route")))

abbrev runs : Text → ℕ → Result Report × ℕ
runs name n = (answer name, n + 1)

abbrev four : List Text
four = lit "a" ∷ lit "b" ∷ lit "c" ∷ lit "d" ∷ []

inspecting : Unit {0}
unfolding tick tick_from can_notify target_clusters answers alarms inspect_each theme_for_level
    HasLevel Base.lit Base.text_eq Base.sort_texts Base.insert Base.text_lt
inspecting = tt

abbrev chat : Target
chat = record { has_notifier = true; notify_chat = lit "oc_1" }

two_alarms :
    (tick runs chat [] four 0).0.1.reports
    ≡ leveled (lit "a") level_critical ∷ leveled (lit "c") level_warn ∷ []
unfolding inspecting
two_alarms = refl

no_chat : (tick runs (record chat { notify_chat = [] }) [] four 0).0.1.reports ≡ []
unfolding inspecting
no_chat = refl

unknown_is_well : (tick runs chat [] four 0).0.0.ok_names ≡ lit "b" ∷ []
unfolding inspecting
unknown_is_well = refl

tick-Counts_example :
    let ((s, sent), m) = tick runs chat [] four 0 in
    let cs = target_clusters [] four in
    Counts chat runs s cs (answers runs cs 0)
    × (sent.reports ≡ (if can_notify chat then alarms (answers runs cs 0) else []))
    × (sent.summary ≡ (if can_notify chat then some s else none))
tick-Counts_example = tick-Counts chat runs [] four 0

b_unknown : HasLevel level_unknown (answers runs four 0)
unfolding inspecting
b_unknown = inr (inl refl)

unknown_masks_example :
    ((inspect_each runs (λ n. []) true four level_ok 0).0.1 ≡ level_unknown)
    × (theme_for_level (inspect_each runs (λ n. []) true four level_ok 0).0.1 ≡ theme_green)
unknown_masks_example = unknown_masks runs (λ n. []) four 0 b_unknown
