-- ===== src/Skill/Bonds.antt =====
-- skill/builtin.go: the bonds of a node, read from the lines of /proc/net/bonding.
use storage_bot.Base.{
  ℕ, ◌-◌, Bool, false, not, ◌&&◌, ◌||◌, List, [], ◌∷◌, ◌++◌, Text, lit, cat, text_eq, if◌then◌else◌,
  Option, none, some, join, trim_space, cut, split_at, trim_prefix, replicate, length, keep, leb,
  map,
}

pub record BondSlave : Type 0 where
  pub name : Text
  pub mii_status : Text
  pub failures : Text

pub record BondInfo : Type 0 where
  pub name : Text
  pub mode : Text
  pub slaves : List BondSlave

-- The bonds in the order of their first lines, and the bond that the current slave belongs to. The
-- current slave is always the last one of that bond.
pub record Scan : Type 0 where
  pub order : List BondInfo
  pub current : Option Text

-- byName[name], made if it is missing.
ensure : Text → List BondInfo → List BondInfo
ensure name [] = record { name = name; mode = []; slaves = [] } ∷ []
ensure name (b ∷ bs) = let rest = ensure name bs in if text_eq b.name name then b ∷ bs else b ∷ rest

-- A change of the bond of that name.
update : Text → (BondInfo → BondInfo) → List BondInfo → List BondInfo
update name f [] = []
update name f (b ∷ bs) =
    let rest = update name f bs in if text_eq b.name name then f b ∷ bs else b ∷ rest

change_last : (BondSlave → BondSlave) → List BondSlave → List BondSlave
change_last f [] = []
change_last f (s ∷ []) = f s ∷ []
change_last f (s ∷ t ∷ ts) = s ∷ change_last f (t ∷ ts)

-- `current != nil && currentBond == name`.
is_current : Option Text → Text → Bool
is_current none name = false
is_current (some c) name = text_eq c name

change_current : (BondSlave → BondSlave) → Text → Scan → Scan
unfolding is_current update change_last
change_current f name s =
    if is_current s.current name
    then record s {
      order = update name (λ b. record b { slaves = change_last f b.slaves }) s.order;
    }
    else s

-- The switch on the key of a line.
take_line : Text → Text → Text → Scan → Scan
unfolding update change_current
take_line name key val s =
    if text_eq key (lit "Bonding Mode")
    then record s { order = update name (λ b. record b { mode = val }) s.order }
    else if text_eq key (lit "Slave Interface")
    then record {
      order =
          update name
            (λ b. record b {
              slaves = b.slaves ++ record { name = val; mii_status = []; failures = [] } ∷ [];
            })
            s.order;
      current = some name;
    }
    else if text_eq key (lit "MII Status")
    then change_current (λ sl. record sl { mii_status = val }) name s
    else if text_eq key (lit "Link Failure Count")
    then change_current (λ sl. record sl { failures = val }) name s
    else s

-- A line behind its first colon, cut at the next one.
take_rest : Text → Option (Text × Text) → Scan → Scan
unfolding ensure take_line
take_rest name none s = s
take_rest name (some (key, val)) s =
    take_line name (trim_space key) (trim_space val) (record s { order = ensure name s.order })

take_cut : Option (Text × Text) → Scan → Scan
unfolding take_rest
take_cut none s = s
take_cut (some (file, rest)) s =
    take_rest (trim_prefix file (lit "/proc/net/bonding/")) (cut (trim_space rest) (lit ":")) s

scan_lines : List Text → Scan → Scan
unfolding take_cut
scan_lines [] s = s
scan_lines (line ∷ ls) s = scan_lines ls (take_cut (cut line (lit ":")) s)

unfoldable pub parse_bonds : Text → List BondInfo
unfolding scan_lines
parse_bonds raw =
    (scan_lines (split_at b'\n' [] (trim_space raw)) (record { order = []; current = none })).order

unfoldable pub has_slave : Text → List BondSlave → Bool
has_slave eth [] = false
has_slave eth (sl ∷ sls) = text_eq sl.name eth || has_slave eth sls

unfoldable pub first_bond : Text → List BondInfo → Option BondInfo
unfolding has_slave
first_bond eth [] = none
first_bond eth (b ∷ bs) =
    let later = first_bond eth bs in if has_slave eth b.slaves then some b else later

-- The bond, with its slaves.
unfoldable pub find_bond_for_slave : Text → Text → Option BondInfo
find_bond_for_slave raw eth = first_bond eth (parse_bonds raw)

abbrev pub member_text : BondSlave → Text
member_text sl = cat (sl.name ∷ lit "(MII=" ∷ sl.mii_status ∷ lit ")" ∷ [])

slave_lines : List BondInfo → Text
slave_lines [] = []
slave_lines (b ∷ bs) = cat (
    lit "● "
    ∷ b.name
    ∷ lit ": "
    ∷ join (map member_text b.slaves) (lit ", ")
    ∷ lit "\n"
    ∷ slave_lines bs
    ∷ [])

no_bonds : Text
no_bonds = lit "```\n(no bonds configured)\n```"

slaves_text : List BondInfo → Text
unfolding slave_lines no_bonds
slaves_text [] = no_bonds
slaves_text (b ∷ bs) = cat (lit "```\n" ∷ slave_lines (b ∷ bs) ∷ lit "```" ∷ [])

unfoldable pub format_bond_slaves : Text → Text
unfolding slaves_text
format_bond_slaves raw = slaves_text (parse_bonds raw)

-- The verb %-10s on valid UTF-8: a width in characters, which are the bytes that continue none.
unfoldable pub pad_right : ℕ → Text → Text
pad_right n s = s ++ replicate (n - length (keep (λ c. not (leb 0x80 c && leb c 0xbf)) s)) b' '

abbrev marker : Text → Text
marker failures = if text_eq failures [] || text_eq failures (lit "0") then lit "  " else lit "⚠ "

report_slaves : List BondSlave → Text
report_slaves [] = []
report_slaves (sl ∷ sls) = cat (
    lit "    "
    ∷ marker sl.failures
    ∷ pad_right 10 sl.name
    ∷ lit "  MII="
    ∷ pad_right 5 sl.mii_status
    ∷ lit "  Link Failure Count="
    ∷ sl.failures
    ∷ lit "\n"
    ∷ report_slaves sls
    ∷ [])

report_bond : BondInfo → List BondSlave → Text
unfolding report_slaves
report_bond b [] = lit "    (no slaves)\n"
report_bond b (sl ∷ sls) = report_slaves (sl ∷ sls)

mode_text : Text → Text
mode_text [] = []
mode_text (c ∷ mode) = cat (lit "  (mode: " ∷ (c ∷ mode) ∷ lit ")" ∷ [])

report_bonds : List BondInfo → Text
unfolding report_bond mode_text
report_bonds [] = []
report_bonds (b ∷ bs) = cat (
    lit "● " ∷ b.name ∷ mode_text b.mode ∷ lit "\n" ∷ report_bond b b.slaves ∷ report_bonds bs ∷ [])

report_text : List BondInfo → Text
unfolding report_bonds no_bonds
report_text [] = no_bonds
report_text (b ∷ bs) = cat (lit "```\n" ∷ report_bonds (b ∷ bs) ∷ lit "```" ∷ [])

unfoldable pub format_bond_report : Text → Text
unfolding report_text
format_bond_report raw = report_text (parse_bonds raw)
