-- ===== src/Executor/Guarded.antt =====
-- What the guarded calls send: commands that their validators let through, and the command that reads
-- a gateway's key. RunShellScript has no guard, and is none of them.
use storage_bot.Base.{◌≡◌, refl, List, [], ◌∷◌, Text, lit, Option, none, some}
use storage_bot.Base.Result.{Result, err, ok}
use storage_bot.Base.Int.{ℤ}
use storage_bot.Security.Validator.{Denial, validate_ssh_command, validate_ceph_command}
use storage_bot.Executor.{
  SshNode, Wire, key_command, key_read, gateway_reached, gateway_hop, sent, sent_output, guarded,
  run, run_via_gateway, run_through, tail_command, at_least_one, read_log, guarded_exec,
  run_ceph_command, diag_reports, diag_commands, node_diag, ceph_reports, printed, guarded_output,
  run_output, log_command, rook_log_command, log_reports, named_logs, collect_logs, health_commands,
  ceph_health,
}

-- A predicate on worlds that is kept by dialing a gateway, by reading its key, and by each command that
-- the validator of its kind lets through.
pub record KeptByValid {W : Type 0} (wire : Wire W) (Inv : W → Type 0) : Type 0 where
  pub reach_kept : (w : W) (gateway : SshNode) → Inv w → Inv (wire.reach w gateway).1
  pub key_kept :
      (w : W) (gateway : SshNode)
      → Inv w
      → Inv (wire.on_gateway w gateway (key_command gateway.gateway_key_file)).1
  pub session_kept :
      (w : W) (hop : Option (SshNode × Text)) (node : SshNode) (cmd : Text)
      → validate_ssh_command cmd ≡ none
      → Inv w
      → Inv (wire.session w hop node cmd).1
  pub exec_kept :
      (w : W) (args : List Text)
      → validate_ceph_command args ≡ none
      → Inv w
      → Inv (wire.exec w (lit "ceph" ∷ args)).1

module _ {W : Type 0} (wire : Wire W) (Inv : W → Type 0) where
  key_read_kept :
      (gateway : SshNode) (r : Result (Option Text) × W) → Inv r.1 → Inv (key_read gateway r).1
  unfolding key_read
  key_read_kept gateway (err e, w) i = i
  key_read_kept gateway (ok none, w) i = i
  key_read_kept gateway (ok (some []), w) i = i
  key_read_kept gateway (ok (some (c ∷ key)), w) i = i

  gateway_reached_kept :
      (gateway : SshNode) (r : Result (Unit {0}) × W)
      → KeptByValid wire Inv
      → Inv r.1
      → Inv (gateway_reached wire gateway r).1
  unfolding gateway_reached
  gateway_reached_kept gateway (err e, w) k i = i
  gateway_reached_kept gateway (ok u, w) k i = key_read_kept gateway _ (k.key_kept w gateway i)

  gateway_hop_kept :
      (gateway : Option SshNode) (w : W)
      → KeptByValid wire Inv
      → Inv w
      → Inv (gateway_hop wire gateway w).1
  unfolding gateway_hop
  gateway_hop_kept none w k i = i
  gateway_hop_kept (some g) w k i = gateway_reached_kept g (wire.reach w g) k (k.reach_kept w g i)

  sent_kept :
      (node : SshNode) (cmd : Text) (r : Result (Option (SshNode × Text)) × W)
      → KeptByValid wire Inv
      → validate_ssh_command cmd ≡ none
      → Inv r.1
      → Inv (sent wire node cmd r).1
  unfolding sent
  sent_kept node cmd (err e, w) k v i = i
  sent_kept node cmd (ok hop, w) k v i = k.session_kept w hop node cmd v i

  guarded_kept :
      (gateway : Option SshNode) (node : SshNode) (cmd : Text) (d : Option Denial) (w : W)
      → KeptByValid wire Inv
      → validate_ssh_command cmd ≡ d
      → Inv w
      → Inv (guarded wire gateway node cmd d w).1
  unfolding guarded
  guarded_kept gateway node cmd none w k e i =
      sent_kept node cmd (gateway_hop wire gateway w) k e (gateway_hop_kept gateway w k i)
  guarded_kept gateway node cmd (some d) w k e i = i

  pub run_through_kept :
      (gateway : Option SshNode) (node : SshNode) (cmd : Text) (w : W)
      → KeptByValid wire Inv
      → Inv w
      → Inv (run_through wire gateway node cmd w).1
  unfolding run_through run run_via_gateway
  run_through_kept none node cmd w k i =
      guarded_kept none node cmd (validate_ssh_command cmd) w k refl i
  run_through_kept (some g) node cmd w k i =
      guarded_kept (some g) node cmd (validate_ssh_command cmd) w k refl i

  guarded_exec_kept :
      (args : List Text) (d : Option Denial) (w : W)
      → KeptByValid wire Inv
      → validate_ceph_command args ≡ d
      → Inv w
      → Inv (guarded_exec wire args d w).1
  unfolding guarded_exec
  guarded_exec_kept args none w k e i = k.exec_kept w args e i
  guarded_exec_kept args (some d) w k e i = i

  pub run_ceph_command_kept :
      (args : List Text) (w : W)
      → KeptByValid wire Inv
      → Inv w
      → Inv (run_ceph_command wire args w).1
  unfolding run_ceph_command
  run_ceph_command_kept args w k i = guarded_exec_kept args (validate_ceph_command args) w k refl i

  diag_reports_kept :
      (gateway : Option SshNode) (node : SshNode) (cs : List (Text × Text)) (w : W)
      → KeptByValid wire Inv
      → Inv w
      → Inv (diag_reports wire gateway node cs w).1
  unfolding diag_reports
  diag_reports_kept gateway node [] w k i = i
  diag_reports_kept gateway node ((label, cmd) ∷ cs) w k i =
      diag_reports_kept gateway node cs (run_through wire gateway node cmd w).1 k
        (run_through_kept gateway node cmd w k i)

  ceph_reports_kept :
      (cs : List (List Text)) (w : W)
      → KeptByValid wire Inv
      → Inv w
      → Inv (ceph_reports wire cs w).1
  unfolding ceph_reports
  ceph_reports_kept [] w k i = i
  ceph_reports_kept (args ∷ cs) w k i =
      ceph_reports_kept cs (run_ceph_command wire args w).1 k (run_ceph_command_kept args w k i)

  printed_kept : (r : Result Text × W) → Inv r.1 → Inv (printed wire r).1
  unfolding printed
  printed_kept (err e, w) i = i
  printed_kept (ok t, w) i = i

  sent_output_kept :
      (node : SshNode) (cmd : Text) (r : Result (Option (SshNode × Text)) × W)
      → KeptByValid wire Inv
      → validate_ssh_command cmd ≡ none
      → Inv r.1
      → Inv (sent_output wire node cmd r).1
  unfolding sent_output
  sent_output_kept node cmd (err e, w) k v i = i
  sent_output_kept node cmd (ok hop, w) k v i =
      printed_kept (wire.session w hop node cmd) (k.session_kept w hop node cmd v i)

  guarded_output_kept :
      (gateway : Option SshNode) (node : SshNode) (cmd : Text) (d : Option Denial) (w : W)
      → KeptByValid wire Inv
      → validate_ssh_command cmd ≡ d
      → Inv w
      → Inv (guarded_output wire gateway node cmd d w).1
  unfolding guarded_output
  guarded_output_kept gateway node cmd none w k e i =
      sent_output_kept node cmd (gateway_hop wire gateway w) k e (gateway_hop_kept gateway w k i)
  guarded_output_kept gateway node cmd (some d) w k e i = i

  pub run_output_kept :
      (gateway : Option SshNode) (node : SshNode) (cmd : Text) (w : W)
      → KeptByValid wire Inv
      → Inv w
      → Inv (run_output wire gateway node cmd w).1
  unfolding run_output
  run_output_kept gateway node cmd w k i =
      guarded_output_kept gateway node cmd (validate_ssh_command cmd) w k refl i

  log_reports_kept :
      (gateway : Option SshNode) (node : SshNode) (paths : List Text) (w : W)
      → KeptByValid wire Inv
      → Inv w
      → Inv (log_reports wire gateway node paths w).1
  unfolding log_reports
  log_reports_kept gateway node [] w k i = i
  log_reports_kept gateway node (path ∷ paths) w k i =
      log_reports_kept gateway node paths
        (run_through wire gateway node (log_command wire path) w).1 k
        (run_through_kept gateway node (log_command wire path) w k i)

  collect_logs_kept :
      (gateway : Option SshNode) (node : SshNode) (w : W)
      → KeptByValid wire Inv
      → Inv w
      → Inv (collect_logs wire gateway node w).1
  unfolding collect_logs
  collect_logs_kept gateway node w k i =
      log_reports_kept gateway node
        (lit "/var/log/messages"
          ∷ lit "/var/log/syslog"
          ∷ named_logs wire (run_output wire gateway node (rook_log_command wire) w).0.0)
        (run_output wire gateway node (rook_log_command wire) w).1 k
        (run_output_kept gateway node (rook_log_command wire) w k i)

  -- What is kept by dialing a gateway, by the one command that reads the gateway's key, and by every
  -- command that the validator of its kind lets through, is kept by each guarded call of the executors,
  -- directly or through a gateway: a run, a log read, a log collection, a diagnosis, a ceph command and
  -- the health check.
  pub executors_send_only_valid :
      (gateway : Option SshNode) (node : SshNode) (cmd path : Text) (lines : ℤ) (args : List Text)
      (w : W)
      → KeptByValid wire Inv
      → Inv w
      → Inv (run_through wire gateway node cmd w).1
        × Inv (read_log wire gateway node path lines w).1
        × Inv (collect_logs wire gateway node w).1
        × Inv (node_diag wire gateway node w).1
        × Inv (run_ceph_command wire args w).1
        × Inv (ceph_health wire w).1
  unfolding read_log node_diag ceph_health
  executors_send_only_valid gateway node cmd path lines args w k i = (
    run_through_kept gateway node cmd w k i,
    run_through_kept gateway node (tail_command wire (at_least_one wire lines) path) w k i,
    collect_logs_kept gateway node w k i,
    diag_reports_kept gateway node (diag_commands wire) w k i,
    run_ceph_command_kept args w k i,
    ceph_reports_kept (health_commands wire) w k i,
  )
