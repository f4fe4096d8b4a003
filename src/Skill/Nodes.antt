-- ===== src/Skill/Nodes.antt =====
-- skill/builtin.go: the skills that read something from each of the nodes.
use storage_bot.Base.{
  ℕ, Bool, true, not, ◌||◌, List, [], ◌∷◌, ◌++◌, Text, lit, cat, text_eq, if◌then◌else◌, Option,
  none, some, join, trim_space, trim_right_byte, is_letter, is_digit, ◌==◌,
}
use storage_bot.Base.Decimal.{atoi}
use storage_bot.Base.Result.{Result, err, ok}
use storage_bot.Regex.{Re, text_begin, text_end, one, many, seq, match_string}
use storage_bot.Executor.{SshNode, Wire}
use storage_bot.Skill.Context.{SshTarget, Context, arg, node_of, run_on_node, resolve_nodes}
use storage_bot.Skill.Bonds.{format_bond_report}

-- The text for a node, from what the command gave there.
plain_text : SshTarget → Result Text → Text
plain_text node (err e) = cat (lit "📌 **" ∷ node.name ∷ lit "** ❌\n```\n" ∷ e ∷ lit "\n```" ∷ [])
plain_text node (ok out) = cat (lit "📌 **" ∷ node.name ∷ lit "**\n```\n" ∷ out ∷ lit "\n```" ∷ [])

nic_text : SshTarget → Result Text → Text
nic_text node (err e) = cat (lit "📌 **" ∷ node.name ∷ lit "** ❌\n```\n" ∷ e ∷ lit "```" ∷ [])
nic_text node (ok out) = cat (lit "📌 **" ∷ node.name ∷ lit "**\n```\n" ∷ out ∷ lit "```" ∷ [])

bond_text : SshTarget → Result Text → Text
bond_text node (err e) = cat (lit "📌 **" ∷ node.name ∷ lit "** ❌\n```\n" ∷ e ∷ lit "\n```" ∷ [])
bond_text node (ok out) = cat (lit "📌 **" ∷ node.name ∷ lit "**\n" ∷ format_bond_report out ∷ [])

pub bond_status_cmd : Text
bond_status_cmd =
    lit "grep -H -E '^(Slave Interface|Link Failure Count|Bonding Mode|MII Status)' "
    ++ lit "/proc/net/bonding/bond* 2>/dev/null || echo '(no bonds configured)'"

keyword_char : ℕ → Bool
keyword_char c = is_letter c || is_digit c || c == b'.' || c == b'_' || c == b':' || c == b'-'

unfoldable pub kernel_keyword_re : Re
unfolding keyword_char
kernel_keyword_re = seq text_begin (seq (one keyword_char) (seq (many keyword_char) text_end))

first_given : Text → Text → Text
first_given [] n = if text_eq n [] then lit "200" else n
first_given (c ∷ v) n = c ∷ v

-- The number of lines, as text.
unfoldable pub count_of : Context → Text
unfolding first_given
count_of sc =
    first_given (trim_space (arg sc.args (lit "count"))) (trim_space (arg sc.args (lit "n")))

unfoldable pub good_keyword : Text → Bool
good_keyword [] = true
good_keyword (c ∷ k) = match_string kernel_keyword_re (c ∷ k)

grep_keyword : Text → Text
grep_keyword [] = []
grep_keyword (c ∷ k) = lit " | grep -i -- " ++ (c ∷ k)

unfoldable pub kernel_cmd : Text → Text → Text
unfolding grep_keyword
kernel_cmd count keyword = cat (
    lit "journalctl -k -n "
    ∷ count
    ∷ lit " --no-pager 2>/dev/null"
    ∷ grep_keyword keyword
    ∷ lit " | tail -n "
    ∷ count
    ∷ lit " || grep -E ' kernel: ' /var/log/messages /var/log/syslog 2>/dev/null"
    ∷ grep_keyword keyword
    ∷ lit " | tail -n "
    ∷ count
    ∷ [])

keyword_note : Text → Text
keyword_note [] = []
keyword_note (c ∷ k) = cat (lit " · 关键字 `" ∷ (c ∷ k) ∷ lit "`" ∷ [])

kernel_text : Text → Text → SshTarget → Result Text → Text
unfolding keyword_note
kernel_text count keyword node r =
    let header = cat (
      lit "📌 **"
      ∷ node.name
      ∷ lit "** · 最近 "
      ∷ count
      ∷ lit " 条 kernel 日志"
      ∷ keyword_note keyword
      ∷ []) in
    elim r [
      | err e ↦ cat (header ∷ lit " ❌\n```\n" ∷ e ∷ lit "\n```" ∷ [])
      | ok out ↦
          let shown = if text_eq (trim_space out) [] then lit "(无匹配)" else out in
          cat (header ∷ lit "\n```\n" ∷ shown ∷ lit "\n```" ∷ [])
    ]

smdctl_text : Text → Result Text → Text
smdctl_text cmd (err e) = cat (lit "📡 `" ∷ cmd ∷ lit "` ❌\n```\n" ∷ e ∷ lit "\n```" ∷ [])
smdctl_text cmd (ok out) =
    cat (lit "📡 `" ∷ cmd ∷ lit "`\n```\n" ∷ trim_right_byte b'\n' out ∷ lit "\n```" ∷ [])

module _ {W : Type 0} (wire : Wire W) (quote : Text → Text) where
  -- The command on each node, in their order.
  on_each : Context → Text → (SshTarget → Result Text → Text) → List SshTarget → W → List Text × W
  on_each sc cmd text [] w = ([], w)
  on_each sc cmd text (n ∷ ns) w =
      let (r, w') = run_on_node wire sc (node_of n) cmd w in
      let (rest, w'') = on_each sc cmd text ns w' in (text n r ∷ rest, w'')

  on_resolved :
      Context
      → Text
      → (SshTarget → Result Text → Text)
      → Result (List SshTarget)
      → W
      → Result Text × W
  unfolding on_each
  on_resolved sc cmd text (err e) w = (ok e, w)
  on_resolved sc cmd text (ok ns) w =
      let (results, w') = on_each sc cmd text ns w in (ok (join results (lit "\n\n")), w')

  unfoldable pub io_stat : Context → W → Result Text × W
  unfolding on_resolved plain_text
  io_stat sc w =
      on_resolved sc (lit "iostat -x 1 3 2>/dev/null || cat /proc/diskstats") plain_text
        (resolve_nodes quote sc.nodes sc.node_name) w

  unfoldable pub nic_info : Context → W → Result Text × W
  unfolding on_resolved nic_text
  nic_info sc w =
      on_resolved sc (lit "ip -br link show | grep -E 'lo|cali|tun|ipvs' -v") nic_text
        (resolve_nodes quote sc.nodes sc.node_name) w

  unfoldable pub bond_status : Context → W → Result Text × W
  unfolding on_resolved bond_text bond_status_cmd
  bond_status sc w =
      on_resolved sc bond_status_cmd bond_text (resolve_nodes quote sc.nodes sc.node_name) w

  kernel_logs_on : Context → Text → Text → Result (List SshTarget) → W → Result Text × W
  unfolding on_resolved kernel_text
  kernel_logs_on sc count keyword (err e) w = (ok e, w)
  kernel_logs_on sc count keyword (ok ns) w =
      if not (atoi count).1
      then (ok (lit "🚫 count 必须是正整数：" ++ quote count), w)
      else (if not (good_keyword keyword)
          then (ok (cat (lit "🚫 keyword 含非法字符：" ∷ quote keyword ∷ lit "（只允许字母/数字/._:-）" ∷ [])), w)
          else on_resolved sc (kernel_cmd count keyword) (kernel_text count keyword) (ok ns) w)

  unfoldable pub kernel_logs : Context → W → Result Text × W
  unfolding kernel_logs_on
  kernel_logs sc w =
      kernel_logs_on sc (count_of sc) (trim_space (arg sc.args (lit "keyword")))
        (resolve_nodes quote sc.nodes sc.node_name) w

  object_lists : Context → SshNode → Result Text × W → Result Text × W
  unfolding smdctl_text
  object_lists sc gateway (err e, w) = (ok (lit "🚫 该集群不支持对象存储查询（网关节点未安装 smdctl）"), w)
  object_lists sc gateway (ok out, w) =
      let (users, w') = run_on_node wire sc gateway (lit "smdctl os-user ls") w in
      let (buckets, w'') = run_on_node wire sc gateway (lit "smdctl os-bucket ls") w' in
      (
        ok (
            join
              (smdctl_text (lit "smdctl os-user ls") users
                ∷ smdctl_text (lit "smdctl os-bucket ls") buckets
                ∷ [])
              (lit "\n\n")),
        w'',
      )

  object_storage_at : Context → Option SshNode → W → Result Text × W
  unfolding object_lists
  object_storage_at sc none w = (ok (lit "🚫 该集群未配置网关节点，无法执行"), w)
  object_storage_at sc (some g) w =
      let gateway : SshNode = record {
        name = g.name;
        host = g.host;
        user = g.user;
        key_file = g.key_file;
        gateway_key_file = [];
      } in
      object_lists sc gateway (run_on_node wire sc gateway (lit "which smdctl") w)

  unfoldable pub object_storage : Context → W → Result Text × W
  unfolding object_storage_at
  object_storage sc w = object_storage_at sc sc.gateway w
