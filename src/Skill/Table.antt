-- ===== src/Skill/Table.antt =====
-- skill/builtin.go: the skills that are a list of ceph commands.
use storage_bot.Base.{List, [], ◌∷◌, Text, lit, map}

pub record Listed : Type 0 where
  pub name : Text
  pub description : Text
  pub commands : List Text

abbrev osd_status : Listed
osd_status = record {
  name = lit "osd_status";
  description = lit "查看 OSD 状态、down/out 的 OSD 及修复建议";
  commands = map lit ("osd status" ∷ "osd tree" ∷ "osd df" ∷ []);
}

abbrev pg_status : Listed
pg_status = record {
  name = lit "pg_status";
  description = lit "查看 PG 状态、不一致/降级的 PG";
  commands =
      map lit (
        "pg stat" ∷ "pg dump_stuck unclean" ∷ "pg dump_stuck inactive" ∷ "pg dump_stuck stale"
        ∷ []);
}

abbrev pool_status : Listed
pool_status = record {
  name = lit "pool_status";
  description = lit "查看所有存储池状态和配置";
  commands = map lit ("osd pool ls detail" ∷ "df detail" ∷ []);
}

abbrev capacity : Listed
capacity = record {
  name = lit "capacity";
  description = lit "检查集群容量使用和各 OSD 磁盘使用率";
  commands = map lit ("df" ∷ "osd df tree" ∷ []);
}

abbrev slow_ops : Listed
slow_ops = record {
  name = lit "slow_ops";
  description = lit "检查慢请求 (slow ops) 和阻塞的操作";
  commands = map lit ("health detail" ∷ []);
}

abbrev crash : Listed
crash = record {
  name = lit "crash";
  description = lit "查看 Ceph 崩溃报告";
  commands = map lit ("crash ls" ∷ "crash ls-new" ∷ []);
}

abbrev mon_status : Listed
mon_status = record {
  name = lit "mon_status";
  description = lit "检查 Monitor 仲裁状态和 leader 选举";
  commands = map lit ("mon stat" ∷ "quorum_status" ∷ []);
}

abbrev get_fsid : Listed
get_fsid = record {
  name = lit "get_fsid";
  description = lit "查询 Ceph 集群的 FSID";
  commands = map lit ("fsid" ∷ []);
}

abbrev get_mon_ips : Listed
get_mon_ips = record {
  name = lit "get_mon_ips";
  description = lit "查询 Ceph 集群的 Monitor IP 列表";
  commands = map lit ("mon dump" ∷ []);
}

abbrev set_no_backfill : Listed
set_no_backfill = record {
  name = lit "set_no_backfill";
  description = lit "设置 nobackfill + norebalance + norecover flags（暂停数据迁移和恢复）";
  commands =
      map lit ("osd set nobackfill" ∷ "osd set norebalance" ∷ "osd set norecover" ∷ "health" ∷ []);
}

abbrev unset_no_backfill : Listed
unset_no_backfill = record {
  name = lit "unset_no_backfill";
  description = lit "取消 nobackfill + norebalance + norecover flags（恢复数据迁移和恢复）";
  commands =
      map lit
        ("osd unset nobackfill" ∷ "osd unset norebalance" ∷ "osd unset norecover" ∷ "health" ∷ []);
}

abbrev set_noout : Listed
set_noout = record {
  name = lit "set_noout";
  description = lit "设置 noout flag（防止 OSD 被标记为 out）";
  commands = map lit ("osd set noout" ∷ "health" ∷ []);
}

abbrev unset_noout : Listed
unset_noout = record {
  name = lit "unset_noout";
  description = lit "取消 noout flag（恢复自动 OSD out 检测）";
  commands = map lit ("osd unset noout" ∷ "health" ∷ []);
}

unfoldable pub command_table : List Listed
command_table =
    osd_status ∷ pg_status ∷ pool_status ∷ capacity ∷ slow_ops ∷ crash ∷ mon_status ∷ get_fsid
    ∷ get_mon_ips ∷ set_no_backfill ∷ unset_no_backfill ∷ set_noout ∷ unset_noout ∷ []
