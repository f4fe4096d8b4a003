-- ===== src/Inspect/Whole.antt =====
-- inspect/runner.go: Run, from the name of a cluster to the stored report; inspect/scheduler.go: the
-- tick over all clusters; and the summary's color of inspect/summary.go.
pub mod Counted
use storage_bot.Base.{
  ℕ, ◌+◌, Bool, true, false, not, ◌&&◌, List, [], ◌∷◌, ◌++◌, Text, lit, cat, text_eq, if◌then◌else◌,
  ltb, Option, none, some, length, sort_texts,
}
use storage_bot.Base.Result.{Result, err, ok}
use storage_bot.Executor.{SshNode, Wire}
use storage_bot.Cluster.{Lookup, found, no_match, ambiguous, find_by_prefix}
use storage_bot.Cluster.Nodes.{ClusterConfig, Kube, Manager, kube_executor, resolve_ssh_nodes}
use storage_bot.Inspect.Level.{
  Level, level_ok, level_warn, level_critical, level_unknown, string, Finding, Report, finalize,
  abnormal,
}
use storage_bot.Inspect.Bond.{apply_bond_delta}
use storage_bot.Inspect.Ceph.{Floats, QuorumStatus}
use storage_bot.Inspect.Inspectors.{Thresholds, Inspector}
use storage_bot.Inspect.Runner.{Setting, Phase, begin, report_of}
use storage_bot.Inspect.Render.{item_label, Theme, theme_green, theme_red, theme_orange}
use storage_bot.Inspect.Store.{Files, list, load, save}

-- `nodes_phase` takes the goroutines of the nodes to their end, in some order; `clock` and `took` are
-- what package time answers.
pub record Runner (W K F : Type 0) : Type 0 where
  pub kube : Kube W K
  pub wire : K → Wire W
  pub thresholds : Thresholds F
  pub floats : Floats F
  pub decode : Text → Option QuorumStatus
  pub registry : List (Inspector W F)
  pub nodes_phase : Setting W F → Phase W F → Phase W F
  pub llm_summary : Bool
  pub analyzer : Option (Text → Text → W → Result Text × W)
  pub store : Option (Files W × ℕ)
  pub lookup_text : Text → Lookup ClusterConfig → Text
  pub clock : W → ℕ
  pub took : ℕ → W → ℕ

summary_lines : List Finding → Text
summary_lines [] = []
summary_lines (f ∷ fs) = cat (
    string f.level
    ∷ lit " "
    ∷ item_label f
    ∷ lit ": "
    ∷ f.summary
    ∷ lit "\n"
    ∷ summary_lines fs
    ∷ [])

module _ {W K F : Type 0} (rn : Runner W K F) where
  readable : Result Report → Option Report
  readable (err e) = none
  readable (ok r) = some r

  first_two : Files W → Text → Result (List Text) → W → Option Report × Option Report
  unfolding readable
  first_two fs cluster (err e) w = (none, none)
  first_two fs cluster (ok []) w = (none, none)
  first_two fs cluster (ok (a ∷ [])) w = (readable (load fs cluster a w), none)
  first_two fs cluster (ok (a ∷ b ∷ more)) w =
      (readable (load fs cluster a w), readable (load fs cluster b w))

  recent_of : Option (Files W × ℕ) → Text → W → Option Report × Option Report
  unfolding first_two
  recent_of none cluster w = (none, none)
  recent_of (some (fs, most)) cluster w = first_two fs cluster (list fs cluster w) w

  unfoldable pub recent_reports : Text → W → Option Report × Option Report
  unfolding recent_of
  recent_reports cluster w = recent_of rn.store cluster w

  summarize_text : (Text → Text → W → Result Text × W) → Text → Text → W → Result Text × W
  summarize_text analyze cluster [] w = (ok [], w)
  summarize_text analyze cluster (c ∷ s) w = analyze cluster (c ∷ s) w

  summarize : (Text → Text → W → Result Text × W) → Report → W → Result Text × W
  unfolding summarize_text summary_lines
  summarize analyze r w = summarize_text analyze r.cluster (summary_lines (abnormal r)) w

  with_summary : Report → Result Text × W → Report × W
  with_summary r (err e, w) = (r, w)
  with_summary r (ok s, w) = (record r { llm_summary = s }, w)

  summarized : Option (Text → Text → W → Result Text × W) → Report → W → Report × W
  unfolding with_summary summarize
  summarized none r w = (r, w)
  summarized (some analyze) r w =
      let with_model = with_summary r (summarize analyze r w) in
      if rn.llm_summary then with_model else (r, w)

  -- The error of Save is dropped.
  stored : Option (Files W × ℕ) → Report → W → W
  stored none r w = w
  stored (some (fs, most)) r w = (save fs most r w).1

  setting : Text → ClusterConfig → K → Setting W F
  setting name cfg k = record {
    cluster_name = name;
    gateway = cfg.gateway_node;
    wire = rn.wire k;
    thresholds = rn.thresholds;
    floats = rn.floats;
    decode = rn.decode;
  }

  -- runWith, the bond deltas, Finalize, the summary and the store.
  unfoldable pub run_on : Text → ClusterConfig → K → List SshNode → W → Report × W
  unfolding setting summarized stored
  run_on name cfg k nodes w =
      let (prev1, prev2) = recent_reports name w in
      let start = rn.clock w in
      let st = setting name cfg k in
      let over = rn.nodes_phase st (begin st rn.registry nodes w) in
      let rep = finalize (apply_bond_delta (report_of st start over.findings) prev1 prev2) in
      let (rep', w') =
        summarized rn.analyzer (record rep { duration = rn.took start over.world }) over.world in
      (rep', stored rn.store rep' w')

  run_nodes :
      Text
      → ClusterConfig
      → K
      → Result (List SshNode) × Manager K × W
      → Result Report × Manager K × W
  run_nodes name cfg k (err e, m, w) = (err e, m, w)
  run_nodes name cfg k (ok nodes, m, w) =
      let (rep, w') = run_on name cfg k nodes w in (ok rep, m, w')

  run_connected : Text → ClusterConfig → Result K × Manager K × W → Result Report × Manager K × W
  unfolding run_nodes
  run_connected name cfg (err e, m, w) = (err e, m, w)
  run_connected name cfg (ok k, m, w) =
      run_nodes name cfg k (resolve_ssh_nodes rn.kube name cfg m w)

  run_found : Text → Lookup ClusterConfig → Manager K → W → Result Report × Manager K × W
  unfolding run_connected
  run_found input (found name cfg) m w = run_connected name cfg (kube_executor rn.kube name cfg m w)
  run_found input no_match m w = (err (rn.lookup_text input no_match), m, w)
  run_found input (ambiguous ns) m w = (err (rn.lookup_text input (ambiguous ns)), m, w)

  unfoldable pub run : Text → Manager K → W → Result Report × Manager K × W
  unfolding run_found
  run input m w = run_found input (find_by_prefix m.clusters input) m w

unfoldable pub target_clusters : List Text → List Text → List Text
target_clusters [] all = all
target_clusters (c ∷ configured) all = c ∷ configured

-- Whether the scheduler has a notifier, and the configured NotifyChat.
pub record Target : Type 0 where
  pub has_notifier : Bool
  pub notify_chat : Text

unfoldable pub can_notify : Target → Bool
can_notify target = target.has_notifier && not (text_eq target.notify_chat [])

-- What the loop of tick has gathered: its variables, and the reports that the notifier got, first to
-- last.
pub record Tally : Type 0 where
  pub ok_names : List Text
  pub failed_names : List Text
  pub warn_count : ℕ
  pub crit_count : ℕ
  pub notified : List Report

pub record Summary : Type 0 where
  pub total : ℕ
  pub well : ℕ
  pub warn : ℕ
  pub critical : ℕ
  pub failed : ℕ
  pub ok_names : List Text
  pub failed_names : List Text

-- The reports after a call of notify.
notify : Target → Report → List Report → List Report
unfolding can_notify
notify target r sent = if can_notify target then sent ++ r ∷ [] else sent

pub tally_level : Target → Text → Report → Level → Tally → Tally
unfolding notify
tally_level target name r level_warn t = record t {
  warn_count = t.warn_count + 1;
  notified = notify target r t.notified;
}
tally_level target name r level_critical t = record t {
  crit_count = t.crit_count + 1;
  notified = notify target r t.notified;
}
tally_level target name r level_ok t = record t { ok_names = t.ok_names ++ name ∷ [] }
tally_level target name r level_unknown t = record t { ok_names = t.ok_names ++ name ∷ [] }

pub tally_one : Target → Text → Result Report → Tally → Tally
unfolding tally_level
tally_one target name (err e) t = record t { failed_names = t.failed_names ++ name ∷ [] }
tally_one target name (ok r) t = tally_level target name r r.overall t

-- What the notifier gets: reports, and the summary behind them.
pub record Sent : Type 0 where
  pub reports : List Report
  pub summary : Option Summary

-- `runs` is the call of Run on each cluster, with its answer.
module _ {M : Type 0} (runs : Text → M → Result Report × M) (target : Target) where
  unfoldable pub tick_from : List Text → Tally → M → Tally × M
  unfolding tally_one
  tick_from [] t m = (t, m)
  tick_from (c ∷ cs) t m = let (r, m') = runs c m in tick_from cs (tally_one target c r t) m'

  summary_of : ℕ → Tally → Summary
  summary_of total t = record {
    total = total;
    well = length t.ok_names;
    warn = t.warn_count;
    critical = t.crit_count;
    failed = length t.failed_names;
    ok_names = sort_texts t.ok_names;
    failed_names = sort_texts t.failed_names;
  }

  -- The summary that is made, and what is sent.
  unfoldable pub tick : List Text → List Text → M → (Summary × Sent) × M
  unfolding summary_of can_notify
  tick configured all m =
      let clusters = target_clusters configured all in
      let (t, m') =
        tick_from clusters
          (record {
            ok_names = [];
            failed_names = [];
            warn_count = 0;
            crit_count = 0;
            notified = [];
          })
          m in
      let s = summary_of (length clusters) t in
      let sent : Option Summary = if can_notify target then some s else none in
      ((s, record { reports = t.notified; summary = sent }), m')

-- The color of the summary's card.
unfoldable pub summary_theme : Summary → Theme
summary_theme s =
    if ltb 0 s.critical
    then theme_red
    else (if ltb 0 s.warn
        then theme_orange
        else (if ltb 0 s.failed then theme_orange else theme_green))
