-- ===== src/Skill/Ceph.antt =====
-- skill/builtin.go: the skills that run ceph commands or restart a daemon's pod.
pub mod Restart
use storage_bot.Base.{
  ℕ, Bool, true, false, not, ◌&&◌, ◌||◌, List, [], ◌∷◌, ◌++◌, String, Text, lit, cat, emoji_style,
  text_eq, if◌then◌else◌, Option, none, some, join, trim_space, fields, map, split_at,
  trim_right_byte, has_suffix,
}
use storage_bot.Base.Result.{Result, err, ok}
use storage_bot.Executor.{CephPod, Wire, run_ceph_command}
use storage_bot.Skill.Context.{Context, arg}
use storage_bot.Skill.Table.{Listed, command_table}

no_kube : Text
no_kube = lit "no kubernetes connection available"

abbrev command_text : Text → Result Text → Text
command_text cmd (err e) = cat (lit "📡 `ceph " ∷ cmd ∷ lit "` ❌\n```\n" ∷ e ∷ lit "\n```" ∷ [])
command_text cmd (ok output) =
    cat (lit "📡 `ceph " ∷ cmd ∷ lit "`\n```\n" ∷ output ∷ lit "\n```" ∷ [])

-- The commands of the skill of that name, if it is one of the list.
unfoldable pub commands_in : List Listed → Text → Option (List Text)
commands_in [] skill = none
commands_in (l ∷ t) skill = if text_eq l.name skill then some l.commands else commands_in t skill

-- The last line's first word, the heading left out.
crash_word : List Text → Text → Text
crash_word [] last = last
crash_word (f ∷ fs) last = if text_eq f (lit "ID") then last else f

crash_from : List Text → Text → Text
unfolding crash_word
crash_from [] last = last
crash_from (l ∷ ls) last = crash_from ls (crash_word (fields (trim_space l)) last)

unfoldable pub latest_crash_id : Text → Text
unfolding crash_from
latest_crash_id out = crash_from (split_at b'\n' [] out) []

module _ {W : Type 0} (wire : Wire W) where
  run_each : List Text → W → List Text × W
  run_each [] w = ([], w)
  run_each (cmd ∷ cmds) w =
      let (r, w') = run_ceph_command wire (fields cmd) w in
      let (rest, w'') = run_each cmds w' in (command_text cmd r ∷ rest, w'')

  unfoldable pub run_ceph_commands : Context → List Text → W → Result Text × W
  unfolding run_each no_kube
  run_ceph_commands sc commands w =
      if not sc.has_kube
      then (err no_kube, w)
      else let (results, w') = run_each commands w in (ok (join results (lit "\n\n")), w')

  crash_detail : Text → Text → Result Text → Text
  crash_detail header latest (err e) =
      cat
        (header ∷ lit "\n\n📡 `ceph crash info " ∷ latest ∷ lit "` ❌\n```\n" ∷ e ∷ lit "\n```" ∷ [])
  crash_detail header latest (ok info) = cat (
      header
      ∷ lit "\n\n📡 `ceph crash info "
      ∷ latest
      ∷ lit "`\n```\n"
      ∷ trim_right_byte b'\n' info
      ∷ lit "\n```"
      ∷ [])

  show_crash : Text → Text → W → Result Text × W
  unfolding crash_detail
  show_crash header [] w = (ok (header ++ lit "\n\n✅ 没有发现 crash"), w)
  show_crash header (c ∷ latest) w =
      let (r, w') = run_ceph_command wire (lit "crash" ∷ lit "info" ∷ (c ∷ latest) ∷ []) w in
      (ok (crash_detail header (c ∷ latest) r), w')

  crash_listed : Result Text × W → Result Text × W
  unfolding show_crash
  crash_listed (err e, w) = (ok (cat (lit "📡 `ceph crash ls` ❌\n```\n" ∷ e ∷ lit "\n```" ∷ [])), w)
  crash_listed (ok out, w) =
      show_crash
        (cat (lit "📡 `ceph crash ls`\n```\n" ∷ trim_right_byte b'\n' out ∷ lit "\n```" ∷ []))
        (latest_crash_id out) w

  unfoldable pub crash_info : Context → W → Result Text × W
  unfolding crash_listed no_kube
  crash_info sc w =
      if not sc.has_kube
      then (err no_kube, w)
      else crash_listed (run_ceph_command wire (lit "crash" ∷ lit "ls" ∷ []) w)

  -- The pods as candidates, a line each.
  pod_lines : List CephPod → Text
  pod_lines [] = []
  pod_lines (p ∷ ps) = cat (
      lit "- `"
      ∷ p.name
      ∷ lit "`（id="
      ∷ p.daemon_id
      ∷ lit ", node="
      ∷ p.node
      ∷ lit ", "
      ∷ p.status
      ∷ lit "）\n"
      ∷ pod_lines ps
      ∷ [])

  candidates : Context → Text → List CephPod → Text
  unfolding pod_lines
  candidates sc daemon pods = cat (
      lit "请指定要重启的 "
      ∷ daemon
      ∷ lit " id（例如 `重启 "
      ∷ daemon
      ∷ lit " a "
      ∷ sc.cluster_name
      ∷ lit "`）。当前 "
      ∷ daemon
      ∷ lit " 列表：\n"
      ∷ pod_lines pods
      ∷ [])

  -- The last pod of that id.
  unfoldable pub pod_of : Text → Option CephPod → List CephPod → Option CephPod
  pod_of id target [] = target
  pod_of id target (p ∷ ps) = pod_of id (if text_eq p.daemon_id id then some p else target) ps

  warning : Text → Text → Context → CephPod → Text
  warning daemon id sc target = cat (
      lit "⚠"
      ∷ emoji_style
      ∷ lit " 将重启 **"
      ∷ daemon
      ∷ lit "."
      ∷ id
      ∷ lit "**（删除 pod `"
      ∷ target.name
      ∷ lit "` @ "
      ∷ target.node
      ∷ lit "，rook 会自动重建）。\n这是写操作，确认请重发并加 `--yes`：`重启 "
      ∷ daemon
      ∷ lit " "
      ∷ id
      ∷ lit " "
      ∷ sc.cluster_name
      ∷ lit " --yes`"
      ∷ [])

  deleted_text : Text → Text → CephPod → Result (Unit {0}) → Result Text
  deleted_text daemon id target (err e) = err e
  deleted_text daemon id target (ok u) = ok (
      cat (
        lit "✅ 已删除 pod `"
        ∷ target.name
        ∷ lit "`（"
        ∷ daemon
        ∷ lit "."
        ∷ id
        ∷ lit " @ "
        ∷ target.node
        ∷ lit "），rook 正在重建中。\n用 `mon status` / `ceph -s` 确认恢复。"
        ∷ []))

  restart_pod : Context → Text → Text → List CephPod → Option CephPod → W → Result Text × W
  unfolding warning deleted_text
  restart_pod sc daemon id pods none w = (
    ok (
        cat (
          lit "未找到 "
          ∷ daemon
          ∷ lit "."
          ∷ id
          ∷ lit "。可用 id："
          ∷ join (map (λ p. p.daemon_id) pods) (lit ", ")
          ∷ [])),
    w,
  )
  restart_pod sc daemon id pods (some target) w =
      if not (text_eq (arg sc.args (lit "yes")) (lit "true"))
      then (ok (warning daemon id sc target), w)
      else let (r, w') = wire.delete_pod w target.name in (deleted_text daemon id target r, w')

  restart_id : Context → Text → List CephPod → Text → W → Result Text × W
  unfolding restart_pod candidates
  restart_id sc daemon pods [] w = (ok (candidates sc daemon pods), w)
  restart_id sc daemon pods (c ∷ id) w =
      restart_pod sc daemon (c ∷ id) pods (pod_of (c ∷ id) none pods) w

  restart_listed : Context → Text → Result (List CephPod) × W → Result Text × W
  unfolding restart_id
  restart_listed sc daemon (err e, w) = (err e, w)
  restart_listed sc daemon (ok [], w) = (ok (cat (lit "未找到任何 " ∷ daemon ∷ lit " pod" ∷ [])), w)
  restart_listed sc daemon (ok (p ∷ pods), w) =
      restart_id sc daemon (p ∷ pods) (trim_space (arg sc.args (lit "id"))) w

  -- For the daemons mon and mgr.
  unfoldable pub restart_ceph_daemon : Context → Text → W → Result Text × W
  unfolding restart_listed no_kube
  restart_ceph_daemon sc daemon w =
      if not sc.has_kube
      then (err no_kube, w)
      else restart_listed sc daemon (wire.list_pods w daemon)
