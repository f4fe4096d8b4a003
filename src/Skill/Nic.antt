-- ===== src/Skill/Nic.antt =====
-- skill/builtin.go: NICDown and NICUp. The two differ in their words and in the test on the other
-- ports, which only NICDown makes; `Verb` holds what differs.
pub mod Safe
use storage_bot.Base.{
  ℕ, Bool, true, false, not, ◌&&◌, ◌||◌, List, [], ◌∷◌, ◌++◌, Text, lit, cat, text_eq,
  if◌then◌else◌, Option, none, some, join, trim_space, keep, map, emoji_style, equal_fold, ◌==◌,
  is_letter, is_digit,
}
use storage_bot.Base.Result.{Result, err, ok}
use storage_bot.Regex.{Re, text_begin, text_end, one, many, seq, match_string}
use storage_bot.Executor.{SshNode, Wire}
use storage_bot.Skill.Context.{
  SshTarget, Context, arg, node_of, run_on_node, names_of, resolve_nodes,
}
use storage_bot.Skill.Bonds.{
  BondSlave, BondInfo, find_bond_for_slave, format_bond_slaves, member_text,
}

abbrev name_char : ℕ → Bool
name_char c = is_letter c || is_digit c || c == b'_' || c == b'.' || c == b':' || c == b'-'

unfoldable pub eth_name_re : Re
eth_name_re = seq text_begin (seq (one name_char) (seq (many name_char) text_end))

pub record Verb : Type 0 where
  pub word : Text
  pub no_node : Text
  pub no_bond : Text
  pub others : Text
  pub closing : Text → Text
  pub all_up : Bool

unfoldable pub down_verb : Verb
down_verb = record {
  word = lit "down";
  no_node = lit "🚫 请指定节点名称（down 网口必须明确目标节点，不能批量执行），例如：`nic down cluster-01 bd-node02 eth0 --yes`";
  no_bond = lit "拒绝执行（无法确认链路冗余）。";
  others = lit "其余在线网口";
  closing = λ eth. cat (lit "\n恢复请在节点执行：`ip link set " ∷ eth ∷ lit " up`" ∷ []);
  all_up = true;
}

unfoldable pub up_verb : Verb
up_verb = record {
  word = lit "up";
  no_node = lit "🚫 请指定节点名称（up 网口必须明确目标节点），例如：`nic up cluster-01 bd-node02 eth0 --yes`";
  no_bond = lit "拒绝执行（避免误操作非 bond 口）。";
  others = lit "同组网口";
  closing = λ eth. [];
  all_up = false;
}

unfoldable pub probe_cmd : Text
probe_cmd =
    lit
      "grep -H -E '^(Slave Interface|MII Status)' /proc/net/bonding/bond* 2>/dev/null || echo '(no bonds configured)'"

-- ip link set <eth> <verb>, and the look at the port.
unfoldable pub link_cmd : Text → Text → Text
link_cmd word eth =
    cat (lit "ip link set " ∷ eth ∷ lit " " ∷ word ∷ lit " && ip -br link show " ∷ eth ∷ [])

-- The ports of the bond that are not up.
abbrev pub not_up : List BondSlave → List BondSlave
not_up sls = keep (λ sl. not (equal_fold sl.mii_status (lit "up"))) sls

module _ {W : Type 0} (wire : Wire W) (quote : Text → Text) (verb : Verb) where
  one_node : List SshTarget → Result SshTarget
  one_node [] = err (lit "🚫 节点指向不唯一（匹配到：），请精确指定单个节点")
  one_node (t ∷ []) = ok t
  one_node (t ∷ u ∷ ts) = err (
      cat (lit "🚫 节点指向不唯一（匹配到：" ∷ join (names_of (t ∷ u ∷ ts)) (lit ", ") ∷ lit "），请精确指定单个节点" ∷ []))

  resolved : Result (List SshTarget) → Result SshTarget
  unfolding one_node
  resolved (err e) = err e
  resolved (ok ts) = one_node ts

  pub target_node : Context → Result SshTarget
  unfolding resolved
  target_node sc = elim (trim_space sc.node_name) [
    | [] ↦ err verb.no_node
    | c ∷ s ↦ resolved (resolve_nodes quote sc.nodes sc.node_name)
  ]

  named_port : Context → SshTarget → Text → Result Text
  named_port sc node [] = err (
      cat (
        lit "🚫 请指定要 "
        ∷ verb.word
        ∷ lit " 的网口名，例如：`nic "
        ∷ verb.word
        ∷ lit " "
        ∷ sc.cluster_name
        ∷ lit " "
        ∷ node.name
        ∷ lit " eth0 --yes`"
        ∷ []))
  named_port sc node (c ∷ eth) =
      if not (match_string eth_name_re (c ∷ eth))
      then err (cat (lit "🚫 网口名含非法字符：" ∷ quote (c ∷ eth) ∷ lit "（只允许字母/数字/._:-）" ∷ []))
      else ok (c ∷ eth)

  -- The reply to a call for a bond's port that passed the tests, without a confirmation.
  preview : Context → SshTarget → Text → BondInfo → Text
  preview sc node eth b =
      let others = map (λ sl. sl.name) (keep (λ sl. not (text_eq sl.name eth)) b.slaves) in
      cat (
        lit "⚠"
        ∷ emoji_style
        ∷ lit " 将在 **"
        ∷ node.name
        ∷ lit "** 执行 `ip link set "
        ∷ eth
        ∷ lit " "
        ∷ verb.word
        ∷ lit "`（bond `"
        ∷ b.name
        ∷ lit "`，"
        ∷ verb.others
        ∷ lit "："
        ∷ join others (lit ", ")
        ∷ lit "）。\n这是写操作，确认请重发并加 `--yes`：`nic "
        ∷ verb.word
        ∷ lit " "
        ∷ sc.cluster_name
        ∷ lit " "
        ∷ node.name
        ∷ lit " "
        ∷ eth
        ∷ lit " --yes`"
        ∷ [])

  done : SshTarget → Text → BondInfo → Result Text → Text
  done node eth b (err e) = cat (
      lit "📌 **"
      ∷ node.name
      ∷ lit "** 执行 `ip link set "
      ∷ eth
      ∷ lit " "
      ∷ verb.word
      ∷ lit "` ❌\n```\n"
      ∷ e
      ∷ lit "\n```"
      ∷ [])
  done node eth b (ok out) =
      let others = map (λ sl. sl.name) (keep (λ sl. not (text_eq sl.name eth)) b.slaves) in
      cat (
        lit "✅ **"
        ∷ node.name
        ∷ lit "** · 已将 `"
        ∷ eth
        ∷ lit "` "
        ∷ verb.word
        ∷ lit "（bond `"
        ∷ b.name
        ∷ lit "`，"
        ∷ verb.others
        ∷ lit "："
        ∷ join others (lit ", ")
        ∷ lit "）\n```\n"
        ∷ trim_space out
        ∷ lit "\n```"
        ∷ verb.closing eth
        ∷ [])

  pub set_link : Context → SshTarget → Text → BondInfo → W → Text × W
  unfolding done
  set_link sc node eth b w =
      let (r, w') = run_on_node wire sc (node_of node) (link_cmd verb.word eth) w in
      (done node eth b r, w')

  -- The confirmation, and the call behind it.
  pub confirm : Context → SshTarget → Text → BondInfo → W → Text × W
  unfolding set_link preview
  confirm sc node eth b w =
      if not (text_eq (arg sc.args (lit "yes")) (lit "true"))
      then (preview sc node eth b, w)
      else set_link sc node eth b w

  -- The ports that are not up, where the verb asks for all of them.
  blocking : BondInfo → List BondSlave
  blocking b = if verb.all_up then not_up b.slaves else []

  pub check_ports : Context → SshTarget → Text → BondInfo → List BondSlave → W → Text × W
  unfolding confirm
  check_ports sc node eth b [] w = confirm sc node eth b w
  check_ports sc node eth b (sl ∷ sls) w = (
    cat (
        lit "🛑 **"
        ∷ node.name
        ∷ lit "** · bond `"
        ∷ b.name
        ∷ lit "` 并非所有网口都是 up，拒绝执行 `ip link set "
        ∷ eth
        ∷ lit " down`。\n异常网口："
        ∷ join (map member_text (sl ∷ sls)) (lit ", ")
        ∷ lit "\n（只有 bond 内全部网口都 up 时才允许 down 其中一个，避免双口同时 down 导致节点断网）"
        ∷ []),
    w,
  )

  pub check_bond : Context → SshTarget → Text → Text → Option BondInfo → W → Text × W
  unfolding check_ports blocking
  check_bond sc node eth probe none w = (
    cat (
        lit "🛑 **"
        ∷ node.name
        ∷ lit "**：网口 `"
        ∷ eth
        ∷ lit "` 不属于任何 bond，"
        ∷ verb.no_bond
        ∷ lit "\n当前 bond 成员：\n"
        ∷ format_bond_slaves probe
        ∷ []),
    w,
  )
  check_bond sc node eth probe (some b) w = check_ports sc node eth b (blocking b) w

  pub check_probe : Context → SshTarget → Text → Result Text × W → Text × W
  unfolding check_bond
  check_probe sc node eth (err e, w) =
      (cat (lit "📌 **" ∷ node.name ∷ lit "** 读取 bond 信息失败 ❌\n```\n" ∷ e ∷ lit "\n```" ∷ []), w)
  check_probe sc node eth (ok probe, w) =
      check_bond sc node eth probe (find_bond_for_slave probe eth) w

  pub with_port : Context → SshTarget → Result Text → W → Text × W
  unfolding check_probe
  with_port sc node (err e) w = (e, w)
  with_port sc node (ok eth) w =
      check_probe sc node eth (run_on_node wire sc (node_of node) probe_cmd w)

  pub with_node : Context → Result SshTarget → W → Text × W
  unfolding with_port named_port
  with_node sc (err e) w = (e, w)
  with_node sc (ok node) w =
      with_port sc node (named_port sc node (trim_space (arg sc.args (lit "eth")))) w

  -- Execute; the error is always nil.
  unfoldable pub nic_execute : Context → W → Text × W
  unfolding with_node target_node
  nic_execute sc w = with_node sc (target_node sc) w

unfoldable pub nic_down : {W : Type 0} → Wire W → (Text → Text) → Context → W → Text × W
nic_down wire quote sc w = nic_execute wire quote down_verb sc w

unfoldable pub nic_up : {W : Type 0} → Wire W → (Text → Text) → Context → W → Text × W
nic_up wire quote sc w = nic_execute wire quote up_verb sc w
