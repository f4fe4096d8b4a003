-- ===== src/Intent.antt =====
-- intent/parser.go: what a message asks for. The table of aliases and its search.
pub mod Order
pub mod Words
pub mod Target
pub mod Args
pub mod Parse
pub mod Fallback
mod Tests
use storage_bot.Base.{
  Bool, true, false, ◌||◌, List, [], ◌∷◌, String, map, Option, none, some, Text, lit, text_eq,
  if◌then◌else◌, any, contains,
}

pub data ActionType : Type 0 where
  action_help action_list_clusters action_health action_log_analysis action_node_diag : ActionType
  action_skill action_list_skills action_rest_storage action_toggle_llm : ActionType
  action_inspect action_list_inspect : ActionType

unfoldable pub needs_fallback : ActionType → Text → Bool
needs_fallback action_help cluster_name = false
needs_fallback action_list_clusters cluster_name = false
needs_fallback action_list_skills cluster_name = false
needs_fallback action_list_inspect cluster_name = false
needs_fallback action_toggle_llm cluster_name = false
needs_fallback action_health cluster_name = text_eq cluster_name []
needs_fallback action_log_analysis cluster_name = text_eq cluster_name []
needs_fallback action_node_diag cluster_name = text_eq cluster_name []
needs_fallback action_skill cluster_name = text_eq cluster_name []
needs_fallback action_rest_storage cluster_name = text_eq cluster_name []
needs_fallback action_inspect cluster_name = text_eq cluster_name []

unfoldable pub type_text : ActionType → Text
type_text action_help = lit "help"
type_text action_list_clusters = lit "list clusters"
type_text action_health = lit "health"
type_text action_log_analysis = lit "log analysis"
type_text action_node_diag = lit "node diagnostics"
type_text action_skill = lit "skill"
type_text action_list_skills = lit "list skills"
type_text action_rest_storage = lit "rest storage"
type_text action_toggle_llm = lit "toggle llm"
type_text action_inspect = lit "inspect"
type_text action_list_inspect = lit "list inspect"

pub record AliasEntry : Type 0 where
  pub skill : Text
  pub aliases : List Text

alias_entry : String → List String → AliasEntry
alias_entry skill aliases = record { skill = lit skill; aliases = map lit aliases }

unfoldable pub skill_alias_table : List AliasEntry
unfolding alias_entry
skill_alias_table =
    alias_entry "restart_mon" ("重启mon" ∷ "重启 mon" ∷ "restart mon" ∷ "restart_mon" ∷ "重启监视器" ∷ [])
    ∷ alias_entry "restart_mgr" ("重启mgr" ∷ "重启 mgr" ∷ "restart mgr" ∷ "restart_mgr" ∷ [])
    ∷ alias_entry "unset_no_backfill" (
        "unset nobackfill" ∷ "unset no_backfill" ∷ "unset_no_backfill" ∷ "取消nobackfill" ∷ "恢复迁移"
        ∷ "恢复backfill" ∷ [])
    ∷ alias_entry "unset_noout" ("unset noout" ∷ "unset_noout" ∷ "取消noout" ∷ [])
    ∷ alias_entry "set_no_backfill" (
        "set nobackfill" ∷ "set no_backfill" ∷ "set_no_backfill" ∷ "设置nobackfill" ∷ "暂停迁移" ∷ "暂停恢复"
        ∷ [])
    ∷ alias_entry "set_noout" ("set noout" ∷ "set_noout" ∷ "设置noout" ∷ [])
    ∷ alias_entry "list_nodes"
        ("节点列表" ∷ "所有节点" ∷ "list nodes" ∷ "list_nodes" ∷ "list_node" ∷ "list node" ∷ [])
    ∷ alias_entry "get_mon_ips" ("mon ip" ∷ "mon ips" ∷ "monitor ip" ∷ "mon地址" ∷ "monitor地址" ∷ [])
    ∷ alias_entry "get_fsid" ("fsid" ∷ "集群id" ∷ "cluster id" ∷ [])
    ∷ alias_entry "osd_status" ("osd状态" ∷ "osd" ∷ [])
    ∷ alias_entry "pg_status" ("pg" ∷ [])
    ∷ alias_entry "pool_status" ("存储池" ∷ "pool" ∷ [])
    ∷ alias_entry "capacity" ("容量" ∷ "capacity" ∷ "空间" ∷ [])
    ∷ alias_entry "slow_ops" ("慢请求" ∷ "慢操作" ∷ "slow" ∷ [])
    ∷ alias_entry "crash_info"
        ("crash_info" ∷ "crash info" ∷ "crash detail" ∷ "崩溃详情" ∷ "崩溃信息" ∷ "最近crash" ∷ "最近崩溃" ∷ [])
    ∷ alias_entry "crash" ("崩溃" ∷ "crash" ∷ [])
    ∷ alias_entry "mon_status" ("仲裁" ∷ "monitor" ∷ "mon" ∷ [])
    ∷ alias_entry "io_stat" ("磁盘io" ∷ "iostat" ∷ "io" ∷ [])
    ∷ alias_entry "kernel_logs"
        ("kernel_logs" ∷ "kernel logs" ∷ "kernel日志" ∷ "kern日志" ∷ "内核日志" ∷ "kernel" ∷ [])
    ∷ alias_entry "hw_info" (
        "hw_info" ∷ "hw info" ∷ "hardware info" ∷ "硬件信息" ∷ "硬件" ∷ "供应商" ∷ "序列号" ∷ "网卡驱动"
        ∷ "firmware" ∷ "固件" ∷ [])
    ∷ alias_entry "nic_down" (
        "nic_down" ∷ "nic down" ∷ "网口down" ∷ "网口 down" ∷ "down网口" ∷ "down 网口" ∷ "ip link set"
        ∷ "link down" ∷ "网口下线" ∷ "禁用网口" ∷ "关闭网口" ∷ [])
    ∷ alias_entry "nic_up"
        ("nic_up" ∷ "nic up" ∷ "网口up" ∷ "网口 up" ∷ "up网口" ∷ "up 网口" ∷ "网口上线" ∷ "启用网口" ∷ "恢复网口" ∷ [])
    ∷ alias_entry "bond_status"
        ("bond_status" ∷ "bond status" ∷ "bond" ∷ "网卡聚合" ∷ "链路聚合" ∷ "link failure" ∷ [])
    ∷ alias_entry "nic_info"
        ("nic_info" ∷ "nic info" ∷ "nic" ∷ "ip link" ∷ "网卡" ∷ "网卡信息" ∷ "网口" ∷ [])
    ∷ alias_entry "optimize_rgw_pg"
        ("optimize rgw" ∷ "rgw pg" ∷ "rgw pg优化" ∷ "upmap rgw" ∷ "优化rgw pg" ∷ "优化rgw存储池" ∷ [])
    ∷ alias_entry "object_storage" ("object_storage" ∷ "object storage" ∷ "对象存储" ∷ [])
    ∷ []

-- `lower == entry.skill || strings.Contains(lower, alias)` for one of the aliases.
abbrev pub hits : Text → AliasEntry → Bool
hits lower e = any (λ alias. text_eq lower e.skill || contains lower alias) e.aliases

-- The skill of the first entry that the message hits.
unfoldable pub first_skill : List AliasEntry → Text → Option Text
first_skill [] lower = none
first_skill (e ∷ es) lower =
    let later = first_skill es lower in if hits lower e then some e.skill else later
