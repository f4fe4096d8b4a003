-- ===== src/Inspect/Hardware/Ports.antt =====
-- inspect/hardware_parse.go: the network ports and the bonds of a node.
use storage_bot.Base.{
  Bool, false, not, ◌&&◌, ◌||◌, List, [], ◌∷◌, ◌++◌, Text, lit, cat, join, text_eq, if◌then◌else◌,
  Option, none, some, contains, trim_space, split_at, has_prefix, cut,
}
use storage_bot.Base.Int.{ℤ, pos, ltb_ℤ, ◌+ℤ◌}
use storage_bot.Base.Decimal.{atoi, itoa}
use storage_bot.Inspect.Level.{level_ok, level_warn, level_critical, Finding, Metrics, finding}

-- What a line says behind the name of its file, and then behind the colon of its key.
abbrev body_of : Text → Option Text
body_of line = elim (cut line (lit ":")) [
  | none ↦ none
  | some (file, rest) ↦ some (trim_space rest)
]

abbrev value_of : Text → Option Text
value_of body = elim (cut body (lit ":")) [ none ↦ none | some (key, v) ↦ some (trim_space v) ]

-- The port whose state comes next, and the ports that are down.
pub record NicScan : Type 0 where
  pub cur_slave : Text
  pub down : List Text

slave_read : Option Text → NicScan → NicScan
slave_read none sc = sc
slave_read (some v) sc = record sc { cur_slave = v }

state_read : Option Text → NicScan → NicScan
state_read none sc = record sc { cur_slave = [] }
state_read (some v) sc =
    if not (text_eq sc.cur_slave []) && not (text_eq v (lit "up"))
    then record { cur_slave = []; down = sc.down ++ sc.cur_slave ∷ [] }
    else record sc { cur_slave = [] }

nic_body : Option Text → NicScan → NicScan
unfolding slave_read state_read
nic_body none sc = sc
nic_body (some body) sc =
    if has_prefix body (lit "Slave Interface")
    then slave_read (value_of body) sc
    else (if has_prefix body (lit "MII Status") then state_read (value_of body) sc else sc)

unfoldable pub nic_scan : List Text → NicScan → NicScan
unfolding nic_body
nic_scan [] sc = sc
nic_scan (l ∷ ls) sc = nic_scan ls (nic_body (body_of l) sc)

unfoldable pub nic_finding : Text → List Text → Finding
nic_finding raw [] = record (finding (lit "hw_nic") level_ok (lit "bond 成员口状态正常")) { detail = raw }
nic_finding raw (d ∷ ds) =
    record (finding (lit "hw_nic") level_warn (lit "bond 成员口未 up：" ++ join (d ∷ ds) (lit ", "))) {
      detail = raw;
      advice = lit "检查对应物理网口连线与交换机端口";
    }

unfoldable pub parse_nic : Text → Finding
unfolding nic_finding
parse_nic raw =
    if contains raw (lit "(no bonds)")
    then record (finding (lit "hw_nic") level_ok (lit "无 bond 成员口")) { detail = raw }
    else nic_finding raw
        (nic_scan (split_at b'\n' [] raw) (record { cur_slave = []; down = [] })).down

-- The total of the failures, and whether a state was not up.
pub record BondScan : Type 0 where
  pub fail_total : ℤ
  pub mii_down : Bool

add_failures : Option Text → BondScan → BondScan
add_failures none sc = sc
add_failures (some v) sc = record sc { fail_total = sc.fail_total +ℤ (atoi v).0 }

note_state : Option Text → BondScan → BondScan
note_state none sc = sc
note_state (some v) sc = record sc { mii_down = sc.mii_down || not (text_eq v (lit "up")) }

bond_body : Option Text → BondScan → BondScan
unfolding add_failures note_state
bond_body none sc = sc
bond_body (some body) sc =
    if has_prefix body (lit "Link Failure Count")
    then add_failures (value_of body) sc
    else (if has_prefix body (lit "MII Status") then note_state (value_of body) sc else sc)

unfoldable pub bond_scan : List Text → BondScan → BondScan
unfolding bond_body
bond_scan [] sc = sc
bond_scan (l ∷ ls) sc = bond_scan ls (bond_body (body_of l) sc)

-- The finding, by the total and whether a state was not up.
unfoldable pub bond_finding : Text → BondScan → Finding
bond_finding raw sc =
    let metrics : Metrics = (lit "link_failure_total", itoa sc.fail_total) ∷ [] in
    if sc.mii_down
    then record (finding (lit "hw_bond") level_critical (lit "存在 MII Status 非 up 的 bond")) {
      metrics = metrics;
      detail = raw;
      advice = lit "检查物理链路与交换机端口";
    }
    else (if ltb_ℤ (pos 0) sc.fail_total
        then record (finding (lit "hw_bond") level_warn
            (cat (lit "bond 累计 Link Failure " ∷ itoa sc.fail_total ∷ lit " 次" ∷ []))) {
              metrics = metrics;
              detail = raw;
            }
        else record (finding (lit "hw_bond") level_ok (lit "bond 链路正常")) {
          metrics = metrics;
          detail = raw;
        })

unfoldable pub parse_bond : Text → Finding
unfolding bond_finding
parse_bond raw =
    if contains raw (lit "(no bonds)")
    then record (finding (lit "hw_bond") level_ok (lit "无 bond 配置")) { detail = raw }
    else bond_finding raw
        (bond_scan (split_at b'\n' [] raw) (record { fail_total = pos 0; mii_down = false }))
