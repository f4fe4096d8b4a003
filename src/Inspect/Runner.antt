-- ===== src/Inspect/Runner.antt =====
-- inspect/runner.go: the inspectors of a cluster in turn, and those of the nodes by one goroutine for
-- each node, of which a bounded number runs at a time. A step is one inspector's call, a goroutine
-- that gets or gives back its place, or the addition of its findings under the lock.
pub mod Ends
pub mod Blocks
pub mod Complete
mod Tests
use storage_bot.Base.{
  ℕ, suc, ◌≡◌, ◌<◌, Bool, true, false, List, [], ◌∷◌, ◌++◌, map, Text, length, Option, none, some,
}
use storage_bot.Base.Result.{Result, err, ok}
use storage_bot.Executor.{SshNode, Wire, host_ip}
use storage_bot.Inspect.Level.{level_ok, Finding, Report, finalize}
use storage_bot.Inspect.Ceph.{Floats, QuorumStatus}
use storage_bot.Inspect.Inspectors.{
  Scope, cluster_scope, node_scope, Thresholds, InspectContext, Inspector, by_scope,
}

-- What every call of a run shares.
pub record Setting (W F : Type 0) : Type 0 where
  pub cluster_name : Text
  pub gateway : Option SshNode
  pub wire : Wire W
  pub thresholds : Thresholds F
  pub floats : Floats F
  pub decode : Text → Option QuorumStatus

-- A node's goroutine that has its place: the inspectors to come, and the local findings.
pub record Worker (W F : Type 0) : Type 0 where
  pub node : SshNode
  pub todo : List (Inspector W F)
  pub found : List Finding

-- `waiting` are the nodes whose goroutines have no place yet.
pub record Phase (W F : Type 0) : Type 0 where
  pub waiting : List SshNode
  pub running : List (Worker W F)
  pub findings : List Finding
  pub world : W

abbrev pub no_node : SshNode
no_node = record { name = []; host = []; user = []; key_file = []; gateway_key_file = [] }

or_name : Text → Text → Text
or_name [] name = name
or_name (c ∷ s) name = c ∷ s

-- The findings of a call; an error gives none.
pub or_none : Result (List Finding) → List Finding
or_none (err e) = []
or_none (ok fs) = fs

module _ {W F : Type 0} (st : Setting W F) where
  unfoldable pub cluster_context : InspectContext W F
  cluster_context = record {
    cluster_name = st.cluster_name;
    node = no_node;
    gateway = none;
    wire = st.wire;
    thresholds = st.thresholds;
    floats = st.floats;
    decode = st.decode;
  }

  unfoldable pub node_context : SshNode → InspectContext W F
  node_context n = record {
    cluster_name = st.cluster_name;
    node = n;
    gateway = st.gateway;
    wire = st.wire;
    thresholds = st.thresholds;
    floats = st.floats;
    decode = st.decode;
  }

  unfoldable pub located : SshNode → Finding → Finding
  unfolding or_name
  located n f = record f {
    node = or_name f.node n.name;
    node_ip = or_name f.node_ip (host_ip st.wire n.host);
  }

  unfoldable pub cluster_findings : List (Inspector W F) → W → List Finding × W
  unfolding or_none cluster_context
  cluster_findings [] w = ([], w)
  cluster_findings (i ∷ is) w =
      let (r, w1) = i.inspect cluster_context w in
      let (fs, w2) = cluster_findings is w1 in (or_none r ++ fs, w2)

  -- The goroutine's next call.
  unfoldable pub inspected : Worker W F → Inspector W F → List (Inspector W F) → W → Worker W F × W
  unfolding or_none located node_context
  inspected k i is w =
      let (r, w1) = i.inspect (node_context k.node) w in
      (record { node = k.node; todo = is; found = k.found ++ map (located k.node) (or_none r) }, w1)

  -- The steps; `is` are the inspectors of a node, and `cap` the size of the semaphore.
  pub data Step (is : List (Inspector W F)) (cap : ℕ) (s u : Phase W F) : Type 0 where
    enter :
        (before after : List SshNode) (n : SshNode)
        → s.waiting ≡ before ++ n ∷ after
        → length s.running < cap
        → u ≡ record {
          waiting = before ++ after;
          running = s.running ++ record { node = n; todo = is; found = [] } ∷ [];
          findings = s.findings;
          world = s.world;
        }
        → Step is cap s u
    call :
        (before after : List (Worker W F)) (k : Worker W F) (i : Inspector W F)
        (rest : List (Inspector W F))
        → s.running ≡ before ++ k ∷ after
        → k.todo ≡ i ∷ rest
        → u ≡ record {
          waiting = s.waiting;
          running = before ++ (inspected k i rest s.world).0 ∷ after;
          findings = s.findings;
          world = (inspected k i rest s.world).1;
        }
        → Step is cap s u
    leave :
        (before after : List (Worker W F)) (k : Worker W F)
        → s.running ≡ before ++ k ∷ after
        → k.todo ≡ []
        → u ≡ record {
          waiting = s.waiting;
          running = before ++ after;
          findings = s.findings ++ k.found;
          world = s.world;
        }
        → Step is cap s u

  -- A run of that many steps.
  pub data Run (is : List (Inspector W F)) (cap : ℕ) (s : Phase W F) : ℕ → Phase W F → Type 0 where
    here : Run is cap s 0 s
    next : {n : ℕ} {t u : Phase W F} → Run is cap s n t → Step is cap t u → Run is cap s (suc n) u

  -- Where the goroutines of the nodes start: the cluster's findings are there.
  unfoldable pub begin : List (Inspector W F) → List SshNode → W → Phase W F
  unfolding cluster_findings by_scope
  begin registry nodes w =
      let (fs, w1) = cluster_findings (by_scope cluster_scope registry) w in
      record { waiting = nodes; running = []; findings = fs; world = w1 }

  -- The report, once the goroutines have ended with these findings.
  unfoldable pub report_of : ℕ → List Finding → Report
  report_of start fs = finalize (record {
    cluster = st.cluster_name;
    started_at = start;
    duration = 0;
    overall = level_ok;
    findings = fs;
    llm_summary = [];
  })

-- wg.Wait() returns.
abbrev pub IsDone : {W F : Type 0} → Phase W F → Type 0
IsDone s = (s.waiting ≡ []) × (s.running ≡ [])
