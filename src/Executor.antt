-- ===== src/Executor.antt =====
-- executor/ssh.go and executor/kube.go: the guards in front of SSH and of the pods, and what goes past
-- them. Dialing, the sessions and the Kubernetes API are the fields of the record `Wire`, over a type
-- of worlds.
pub mod Guarded
use storage_bot.Base.{
  contains, split_at, keep, not, ◌||◌, ℕ, zero, suc, Bool, true, false, List, [], ◌∷◌, ◌++◌, Text,
  lit, cat, text_eq, if◌then◌else◌, Option, none, some, join, trim_space,
}
use storage_bot.Base.Int.{ℤ, pos, negsuc}
use storage_bot.Base.Decimal.{itoa}
use storage_bot.Base.Result.{Result, err, ok}
use storage_bot.Security.Validator.{Denial, validate_ssh_command, validate_ceph_command}

pub record SshNode : Type 0 where
  pub name : Text
  pub host : Text
  pub user : Text
  pub key_file : Text
  pub gateway_key_file : Text

pub record CephPod : Type 0 where
  pub name : Text
  pub daemon_id : Text
  pub node : Text
  pub status : Text

-- `reach` dials a gateway, and `on_gateway` runs a command there: an error if no session can be opened,
-- `none` if the command fails. `session` dials the node, through a gateway and with the key that was
-- read there if they are given, and runs the command on the node; `exec` runs a command line in the
-- toolbox pod. `partial` is what the session that failed last printed. `denial_text` is the message of
-- a validator's error, and `split_host_port` the host that net.SplitHostPort gives.
pub record Wire (W : Type 0) : Type 0 where
  pub reach : W → SshNode → Result (Unit {0}) × W
  pub on_gateway : W → SshNode → Text → Result (Option Text) × W
  pub session : W → Option (SshNode × Text) → SshNode → Text → Result Text × W
  pub partial : W → Text
  pub exec : W → List Text → Result Text × W
  pub list_pods : W → Text → Result (List CephPod) × W
  pub delete_pod : W → Text → Result (Unit {0}) × W
  pub denial_text : Denial → Text
  pub split_host_port : Text → Option Text

-- The command that reads the gateway's own key. No validator looks at it.
abbrev pub key_command : Text → Text
key_command [] =
    lit
      "for f in ~/.ssh/id_rsa ~/.ssh/id_ed25519 ~/.ssh/id_ecdsa; do [ -f \"$f\" ] && cat \"$f\" && break; done"
key_command (c ∷ f) = lit "cat " ++ c ∷ f

-- readRemotePrivateKey and its caller's error; an empty key is none.
no_key : SshNode → Text
no_key gateway = cat (
    lit "read private key from gateway "
    ∷ gateway.host
    ∷ lit ": no private key found on gateway (tried: "
    ∷ key_command gateway.gateway_key_file
    ∷ lit ")"
    ∷ [])

key_read : {W : Type 0} → SshNode → Result (Option Text) × W → Result (Option (SshNode × Text)) × W
unfolding no_key
key_read gateway (err e, w) = (
  err (
      cat
        (lit "read private key from gateway " ∷ gateway.host ∷ lit ": create session: " ∷ e ∷ [])),
  w,
)
key_read gateway (ok none, w) = (err (no_key gateway), w)
key_read gateway (ok (some []), w) = (err (no_key gateway), w)
key_read gateway (ok (some (c ∷ key)), w) = (ok (some (gateway, c ∷ key)), w)

module _ {W : Type 0} (wire : Wire W) where
  unfoldable pub host_ip : Text → Text
  host_ip host_port = elim (wire.split_host_port host_port) [ none ↦ host_port | some h ↦ h ]

  gateway_reached : SshNode → Result (Unit {0}) × W → Result (Option (SshNode × Text)) × W
  unfolding key_read
  gateway_reached gateway (err e, w) =
      (err (cat (lit "dial gateway " ∷ gateway.host ∷ lit ": " ∷ e ∷ [])), w)
  gateway_reached gateway (ok u, w) =
      key_read gateway (wire.on_gateway w gateway (key_command gateway.gateway_key_file))

  -- The first half of dialViaGateway, if there is a gateway.
  gateway_hop : Option SshNode → W → Result (Option (SshNode × Text)) × W
  unfolding gateway_reached
  gateway_hop none w = (ok none, w)
  gateway_hop (some gateway) w = gateway_reached gateway (wire.reach w gateway)

  sent : SshNode → Text → Result (Option (SshNode × Text)) × W → Result Text × W
  sent node cmd (err e, w) = (err e, w)
  sent node cmd (ok hop, w) = wire.session w hop node cmd

  guarded : Option SshNode → SshNode → Text → Option Denial → W → Result Text × W
  unfolding sent gateway_hop
  guarded gateway node cmd (some d) w = (err (wire.denial_text d), w)
  guarded gateway node cmd none w = sent node cmd (gateway_hop gateway w)

  -- SSHExecutor.Run.
  unfoldable pub run : SshNode → Text → W → Result Text × W
  unfolding guarded
  run node cmd w = guarded none node cmd (validate_ssh_command cmd) w

  unfoldable pub run_via_gateway : SshNode → SshNode → Text → W → Result Text × W
  unfolding guarded
  run_via_gateway gateway node cmd w = guarded (some gateway) node cmd (validate_ssh_command cmd) w

  -- Directly, or through the gateway if one is given.
  unfoldable pub run_through : Option SshNode → SshNode → Text → W → Result Text × W
  run_through none node cmd w = run node cmd w
  run_through (some gateway) node cmd w = run_via_gateway gateway node cmd w

  tail_command : ℤ → Text → Text
  tail_command tail_lines path = cat (
      lit "tail -n "
      ∷ itoa tail_lines
      ∷ lit " "
      ∷ path
      ∷ lit " 2>/dev/null || echo '[file not found: "
      ∷ path
      ∷ lit "]'"
      ∷ [])

  at_least_one : ℤ → ℤ
  at_least_one (pos zero) = pos 200
  at_least_one (pos (suc n)) = pos (suc n)
  at_least_one (negsuc n) = pos 200

  -- ReadLog and ReadLogViaGateway.
  unfoldable pub read_log : Option SshNode → SshNode → Text → ℤ → W → Result Text × W
  unfolding tail_command at_least_one
  read_log gateway node path tail_lines w =
      run_through gateway node (tail_command (at_least_one tail_lines) path) w

  guarded_exec : List Text → Option Denial → W → Result Text × W
  guarded_exec args (some d) w = (err (wire.denial_text d), w)
  guarded_exec args none w = wire.exec w (lit "ceph" ∷ args)

  unfoldable pub run_ceph_command : List Text → W → Result Text × W
  unfolding guarded_exec
  run_ceph_command args w = guarded_exec args (validate_ceph_command args) w

  -- RunShellScript; the script goes to the pod as it is, past both validators.
  unfoldable pub run_shell_script : Text → W → Result Text × W
  run_shell_script script w =
      wire.exec w (lit "bash" ∷ lit "-c" ∷ cat (lit "{ " ∷ script ∷ lit "; } 2>&1" ∷ []) ∷ [])

  -- A list of commands, each with its label; an error is part of the report and stops nothing.
  abbrev report_one : (Text → Text) → Text × Result Text → Text
  report_one tidy (label, err e) = cat (lit "=== " ∷ label ∷ lit " ===\nERROR: " ∷ e ∷ [])
  report_one tidy (label, ok output) = cat (lit "=== " ∷ label ∷ lit " ===\n" ∷ tidy output ∷ [])

  diag_reports : Option SshNode → SshNode → List (Text × Text) → W → List Text × W
  diag_reports gateway node [] w = ([], w)
  diag_reports gateway node ((label, cmd) ∷ cs) w =
      let (r, w') = run_through gateway node cmd w in
      let (rest, w'') = diag_reports gateway node cs w' in
      (report_one trim_space (label, r) ∷ rest, w'')

  diag_commands : List (Text × Text)
  diag_commands =
      (lit "dmesg (last 50 lines)", lit "dmesg | tail -50")
      ∷ (lit "disk usage", lit "df -hT -x overlay -x tmpfs")
      ∷ (lit "memory", lit "free -h")
      ∷ (lit "ceph processes", lit "ps aux | grep -E 'ceph|rook' | grep -v grep")
      ∷ (lit "network errors", lit "ip -s link | grep -A2 'errors'")
      ∷ (lit "system load", lit "uptime")
      ∷ []

  -- NodeDiagnostics and NodeDiagnosticsViaGateway; the error is always nil.
  unfoldable pub node_diag : Option SshNode → SshNode → W → Text × W
  unfolding diag_reports diag_commands
  node_diag gateway node w =
      let (results, w') = diag_reports gateway node diag_commands w in
      (join results (lit "\n\n"), w')

  ceph_reports : List (List Text) → W → List Text × W
  ceph_reports [] w = ([], w)
  ceph_reports (args ∷ more) w =
      let (r, w') = run_ceph_command args w in
      let (rest, w'') = ceph_reports more w' in
      (report_one (λ t. t) (lit "ceph " ++ join args (lit " "), r) ∷ rest, w'')

  health_commands : List (List Text)
  health_commands =
      (lit "status" ∷ [])
      ∷ (lit "health" ∷ lit "detail" ∷ [])
      ∷ (lit "df" ∷ [])
      ∷ (lit "osd" ∷ lit "tree" ∷ [])
      ∷ []

  unfoldable pub ceph_health : W → Text × W
  unfolding ceph_reports health_commands
  ceph_health w =
      let (results, w') = ceph_reports health_commands w in (join results (lit "\n\n"), w')

  -- Run and RunViaGateway as their callers see them that look at the output beside the error.
  printed : Result Text × W → (Text × Option Text) × W
  printed (err e, w) = ((wire.partial w, some e), w)
  printed (ok output, w) = ((output, none), w)

  sent_output : SshNode → Text → Result (Option (SshNode × Text)) × W → (Text × Option Text) × W
  unfolding printed
  sent_output node cmd (err e, w) = (([], some e), w)
  sent_output node cmd (ok hop, w) = printed (wire.session w hop node cmd)

  guarded_output : Option SshNode → SshNode → Text → Option Denial → W → (Text × Option Text) × W
  unfolding sent_output gateway_hop
  guarded_output gateway node cmd (some d) w = (([], some (wire.denial_text d)), w)
  guarded_output gateway node cmd none w = sent_output node cmd (gateway_hop gateway w)

  unfoldable pub run_output : Option SshNode → SshNode → Text → W → (Text × Option Text) × W
  unfolding guarded_output
  run_output gateway node cmd w = guarded_output gateway node cmd (validate_ssh_command cmd) w

  log_command : Text → Text
  log_command path = cat (
      lit "tail -n 100 "
      ∷ path
      ∷ lit " 2>/dev/null || echo '[file not found: "
      ∷ path
      ∷ lit "]'"
      ∷ [])

  -- The report of a log file, if there is anything to show.
  log_report : Text → Result Text → List Text
  log_report path (err e) = []
  log_report path (ok output) =
      if contains output (lit "[file not found") || text_eq output []
      then []
      else cat (lit "=== " ∷ path ∷ lit " (last 100 lines) ===\n" ∷ output ∷ []) ∷ []

  log_reports : Option SshNode → SshNode → List Text → W → List Text × W
  unfolding log_command log_report
  log_reports gateway node [] w = ([], w)
  log_reports gateway node (path ∷ paths) w =
      let (r, w') = run_through gateway node (log_command path) w in
      let (rest, w'') = log_reports gateway node paths w' in (log_report path r ++ rest, w'')

  rook_log_command : Text
  rook_log_command =
      lit "find /var/lib/rook/rook-ceph/log -name '*.log' -mmin -60 2>/dev/null | head -5"

  named_logs : Text → List Text
  named_logs recent = keep (λ l. not (text_eq l [])) (split_at b'\n' [] (trim_space recent))

  -- CollectLogs and CollectLogsViaGateway; the error is always nil.
  unfoldable pub collect_logs : Option SshNode → SshNode → W → Text × W
  unfolding log_reports named_logs rook_log_command
  collect_logs gateway node w =
      let (found, w') = run_output gateway node rook_log_command w in
      let (results, w'') =
        log_reports gateway node
          (lit "/var/log/messages" ∷ lit "/var/log/syslog" ∷ named_logs found.0) w' in
      (join results (lit "\n\n"), w'')
