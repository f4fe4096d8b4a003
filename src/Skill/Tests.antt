-- ===== src/Skill/Tests.antt =====
-- Runs of the skills and of the executors, and their theorems at concrete inputs. The world is the
-- list of what was sent, the last command first.
use storage_bot.Base.{
  ℕ, ◌≡◌, ◌≢◌, refl, Bool, true, false, Option, none, some, List, [], ◌∷◌, ◌++◌, Text, lit, text_eq,
  if◌then◌else◌, trim_space, All, ◌⊎◌, inl, inr,
}
use storage_bot.Base
use storage_bot.Base.Int.{pos}
use storage_bot.Base.Decimal
use storage_bot.Base.Result.{ok}
use storage_bot.Regex
use storage_bot.Security.Patterns.{dangerous_patterns, shell_meta_chars}
use storage_bot.Security.Validator.{
  validate_command, validate_ssh_command, validate_ceph_command, read_only_prefixes,
  allowed_write_exact, safe_commands,
}
use storage_bot.Executor.{
  SshNode, Wire, key_command, run, run_through, read_log, node_diag, collect_logs, run_ceph_command,
  ceph_health, host_ip, run_via_gateway, run_shell_script,
}
use storage_bot.Executor.Guarded.{KeptByValid, executors_send_only_valid}
use storage_bot.Skill.Context.{SshTarget, Context, arg, run_on_node, filter_nodes, resolve_nodes}
use storage_bot.Skill.Bonds.{
  parse_bonds, first_bond, has_slave, find_bond_for_slave, format_bond_slaves, format_bond_report,
  pad_right,
}
use storage_bot.Skill.Nic.{
  eth_name_re, down_verb, up_verb, nic_execute, nic_down, nic_up, link_cmd, probe_cmd,
}
use storage_bot.Skill.Nic.Safe.{Deed, nic_down-Deed}
use storage_bot.Skill.Rgw.{optimize_rgw_pg, pool_of, upmap_script}
use storage_bot.Skill.Rgw.Once
use storage_bot.Skill.Table.{command_table}
use storage_bot.Skill.Ceph.{
  commands_in, latest_crash_id, crash_info, pod_of, restart_ceph_daemon, run_ceph_commands,
}
use storage_bot.Skill.Ceph.Restart
use storage_bot.Skill.Ceph.Restart.{restart_ceph_daemon-Deed}

skills : Unit {0}
unfolding run run_through run_via_gateway read_log node_diag run_ceph_command ceph_health host_ip
    arg run_on_node filter_nodes resolve_nodes parse_bonds first_bond has_slave find_bond_for_slave
    format_bond_slaves format_bond_report pad_right eth_name_re down_verb up_verb nic_execute
    nic_down nic_up command_table commands_in latest_crash_id crash_info pod_of restart_ceph_daemon
    run_ceph_commands validate_command validate_ssh_command validate_ceph_command dangerous_patterns
    shell_meta_chars read_only_prefixes allowed_write_exact safe_commands Regex.match_string
    Regex.find Regex.run Base.lit Base.trim_space Base.fields Base.has_prefix Base.has_suffix
    Base.text_eq Base.join Base.split_at Base.to_lower Base.contains Base.cut Base.trim_prefix
    Base.equal_fold Base.trim_right_byte Decimal.itoa Decimal.itoa_ℕ
skills = tt

-- Two ports of bond0, both up, and one of bond1.
bonding : Text
bonding =
    lit "/proc/net/bonding/bond0:MII Status: up\n"
    ++ (lit "/proc/net/bonding/bond0:Slave Interface: eth0\n"
        ++ (lit "/proc/net/bonding/bond0:MII Status: up\n"
            ++ (lit "/proc/net/bonding/bond0:Slave Interface: eth1\n"
                ++ (lit "/proc/net/bonding/bond0:MII Status: up\n"
                    ++ (lit "/proc/net/bonding/bond1:MII Status: up\n"
                        ++ (lit "/proc/net/bonding/bond1:Slave Interface: eth2\n"
                            ++ (lit "/proc/net/bonding/bond1:MII Status: up\n")))))))

answer : Text → Text
answer cmd = if text_eq cmd probe_cmd then bonding else lit "done"

abbrev wire : Wire (List Text)
wire = record {
  reach = λ w gateway. (ok tt, w);
  on_gateway = λ w gateway cmd. (ok (some (lit "key")), cmd ∷ w);
  session = λ w hop node cmd. (ok (answer cmd), cmd ∷ w);
  partial = λ w. lit "partly";
  exec = λ w args. (ok (lit "out"), lit "ceph" ∷ w);
  list_pods = λ w daemon. (
    ok (
        record {
          name = lit "mon-a-1";
          daemon_id = lit "a";
          node = lit "n1";
          status = lit "Running";
        }
        ∷ []),
    w,
  );
  delete_pod = λ w name. (ok tt, name ∷ w);
  denial_text = λ d. lit "denied";
  split_host_port = λ h. none;
}

abbrev quote : Text → Text
quote t = t

abbrev target : Text → SshTarget
target name = record { name = name; host = name; user = lit "root"; key_file = [] }

abbrev for_port : Text → List (Text × Text) → Context
for_port eth more = record {
  cluster_name = lit "cdn";
  node_name = lit "node02";
  gateway = none;
  has_kube = true;
  nodes = target (lit "bd-node01") ∷ target (lit "bd-node02") ∷ [];
  args = (lit "eth", eth) ∷ more;
}

abbrev confirmed : List (Text × Text)
confirmed = (lit "yes", lit "true") ∷ []

down_sends :
    (nic_down wire quote (for_port (lit "eth0") confirmed) []).1
    ≡ lit "ip link set eth0 down && ip -br link show eth0" ∷ probe_cmd ∷ []
unfolding skills answer bonding probe_cmd link_cmd
down_sends = refl

unconfirmed : (nic_down wire quote (for_port (lit "eth0") []) []).1 ≡ probe_cmd ∷ []
unfolding skills answer bonding probe_cmd
unconfirmed = refl

injected : (nic_down wire quote (for_port (lit "eth0;x") confirmed) []).1 ≡ []
unfolding skills answer bonding probe_cmd
injected = refl

nic_down-Deed_example :
    Deed wire quote down_verb
      (for_port (lit "eth0") confirmed)
      []
      (nic_down wire quote (for_port (lit "eth0") confirmed) [])
nic_down-Deed_example = nic_down-Deed wire quote (for_port (lit "eth0") confirmed) []

-- The port of bond1 is the only one, and it goes down all the same.
lone_port :
    (nic_down wire quote (for_port (lit "eth2") confirmed) []).1
    ≡ lit "ip link set eth2 down && ip -br link show eth2" ∷ probe_cmd ∷ []
unfolding skills answer bonding probe_cmd link_cmd
lone_port = refl

ports_shown :
    format_bond_slaves (lit "x:Slave Interface: e0\nx:MII Status: down\n")
    ≡ lit "```\n● x: e0(MII=down)\n```"
unfolding skills
ports_shown = refl

report_shown :
    format_bond_report (lit "x:Slave Interface: e0\nx:MII Status: up\nx:Link Failure Count: 2\n")
    ≡ lit "```\n● x\n    ⚠ e0          MII=up     Link Failure Count=2\n```"
unfolding skills
report_shown = refl

last_crash : latest_crash_id (lit "ID  ENTITY\n2024_a osd.5\n2025_b mon.a\n\n") ≡ lit "2025_b"
unfolding skills
last_crash = refl

-- Two pools with the suffix; the first is taken.
abbrev pooled : Wire (List Text)
pooled = record wire {
  exec = λ w args. (ok (lit "rbd\n a.rgw.buckets.data\nb.rgw.buckets.data\n"), args ++ w);
}

one_script :
    (optimize_rgw_pg pooled quote (for_port [] []) []).1
    ≡ lit "bash"
      ∷ lit "-c"
      ∷ (lit "{ " ++ (upmap_script quote (lit "100") (lit "a.rgw.buckets.data") ++ lit "; } 2>&1"))
      ∷ lit "ceph"
      ∷ lit "osd"
      ∷ lit "pool"
      ∷ lit "ls"
      ∷ []
unfolding skills optimize_rgw_pg pool_of upmap_script run_shell_script
one_script = refl

abbrev for_daemon : List (Text × Text) → Context
for_daemon args = record (for_port [] []) { args = (lit "id", lit "a") ∷ args }

restarted : (restart_ceph_daemon wire (for_daemon confirmed) (lit "mon") []).1 ≡ lit "mon-a-1" ∷ []
unfolding skills
restarted = refl

restart_ceph_daemon-Deed_example :
    Restart.Deed wire
      (for_daemon [])
      (record { name = lit "mon-a-1"; daemon_id = lit "a"; node = lit "n1"; status = lit "Running" }
        ∷ [])
      []
      (restart_ceph_daemon wire (for_daemon []) (lit "mon") [])
restart_ceph_daemon-Deed_example =
    restart_ceph_daemon-Deed wire (for_daemon []) (lit "mon") [] []
      (record { name = lit "mon-a-1"; daemon_id = lit "a"; node = lit "n1"; status = lit "Running" }
        ∷ [])
      refl refl

abbrev node : SshNode
node = record { name = []; host = []; user = []; key_file = []; gateway_key_file = [] }

abbrev keyed : SshNode
keyed = record node { host = lit "gw"; gateway_key_file = lit "/root/key" }

-- Each entry of the log is the mark of a call of a pod, the command that reads a key, or a command
-- that its validator lets through.
abbrev Sent : List Text → Type 0
Sent w =
    All
      (λ c.
        (c ≡ lit "ceph")
        ⊎ ((g : SshNode) × (c ≡ key_command g.gateway_key_file))
        ⊎ (validate_ssh_command c ≡ none))
      w

Sent-kept : KeptByValid wire Sent
Sent-kept = record {
  reach_kept = λ w g i. i;
  key_kept = λ w g i. (inr (inl (g, refl)), i);
  session_kept = λ w hop node cmd e i. (inr (inr e), i);
  exec_kept = λ w args e i. (inl refl, i);
}

executors_send_only_valid_example :
    Sent (run_through wire (some keyed) node (lit "rm -rf /") []).1
    × Sent (read_log wire (some keyed) node (lit "/var/log/messages") (pos 10) []).1
    × Sent (collect_logs wire (some keyed) node []).1
    × Sent (node_diag wire (some keyed) node []).1
    × Sent (run_ceph_command wire (lit "osd" ∷ lit "rm" ∷ []) []).1
    × Sent (ceph_health wire []).1
executors_send_only_valid_example =
    executors_send_only_valid wire Sent (some keyed) node (lit "rm -rf /") (lit "/var/log/messages")
      (pos 10) (lit "osd" ∷ lit "rm" ∷ []) [] Sent-kept tt

through_gateway :
    (run_through wire (some keyed) node (lit "uptime") []).1
    ≡ lit "uptime" ∷ lit "cat /root/key" ∷ []
unfolding skills
through_gateway = refl

diagnosed :
    (node_diag wire none node []).1
    ≡ lit "uptime"
      ∷ lit "ip -s link | grep -A2 'errors'"
      ∷ lit "ps aux | grep -E 'ceph|rook' | grep -v grep"
      ∷ lit "free -h"
      ∷ lit "df -hT -x overlay -x tmpfs"
      ∷ lit "dmesg | tail -50"
      ∷ []
unfolding skills
diagnosed = refl

refused_run : (run wire node (lit "rm -rf /") []).1 ≡ []
unfolding skills
refused_run = refl
