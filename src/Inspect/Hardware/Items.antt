-- ===== src/Inspect/Hardware/Items.antt =====
-- The findings on the hardware are about their inspector.
use storage_bot.Base.{
  refl, arith, Bool, true, false, List, [], ◌∷◌, ◌++◌, Text, lit, Option, none, some, All, fields,
  split_at, has_prefix, if_intro, text_eq, trim_suffix,
}
use storage_bot.Base.Int.{ℤ, pos}
use storage_bot.Base.Decimal.{atoi}
use storage_bot.Regex.{Found, find}
use storage_bot.Inspect.Level.{Finding, Of}
use storage_bot.Inspect.Ceph.{Floats}
use storage_bot.Inspect.Hardware.{
  memory_unknown, memory_level, memory_numbers, memory_line, memory_lines, parse_memory,
  usage_finding, usage_of, usage_line, usage_lines, parse_disk_usage, smart, smart_health,
  smart_health_re, smart_life, smart_pct_re, parse_smart, load_unknown, load_ratio, load_of,
  load_re, parse_load, nic_finding, nic_scan, parse_nic, bond_finding, BondScan, bond_scan,
  parse_bond,
}

module _ {F : Type 0} (fl : Floats F) (raw : Text) (warn crit : ℤ) where
  memory_numbers-Of : (t u : F × Bool) → Of (lit "hw_memory") (memory_numbers fl raw warn crit t u)
  unfolding memory_numbers memory_unknown memory_level
  memory_numbers-Of (total, a) (used, b) = ground arith

  memory_line-Of :
      (ws : List Text) (later : Finding)
      → Of (lit "hw_memory") later
      → Of (lit "hw_memory") (memory_line fl raw warn crit ws later)
  unfolding memory_line
  memory_line-Of [] later h = h
  memory_line-Of (a ∷ []) later h = h
  memory_line-Of (a ∷ b ∷ []) later h = h
  memory_line-Of (name ∷ total ∷ used ∷ more) later h =
      if_intro (Of (lit "hw_memory")) (has_prefix name (lit "Mem"))
        (memory_numbers fl raw warn crit (fl.parse_float total) (fl.parse_float used)) later
        (λ e. memory_numbers-Of (fl.parse_float total) (fl.parse_float used)) (λ e. h)

  memory_lines-Of : (ls : List Text) → Of (lit "hw_memory") (memory_lines fl raw warn crit ls)
  unfolding memory_lines memory_unknown
  memory_lines-Of [] = (refl, refl)
  memory_lines-Of (l ∷ ls) =
      memory_line-Of (fields l) (memory_lines fl raw warn crit ls) (memory_lines-Of ls)

  pub parse_memory-Of : Of (lit "hw_memory") (parse_memory fl raw warn crit)
  unfolding parse_memory
  parse_memory-Of = memory_lines-Of (split_at b'\n' [] raw)

abbrev AllUsage : List Finding → Type 0
AllUsage fs = All (Of (lit "hw_disk_usage")) fs

AllUsage-append : (xs ys : List Finding) → AllUsage xs → AllUsage ys → AllUsage (xs ++ ys)
AllUsage-append [] ys h k = k
AllUsage-append (x ∷ xs) ys (h, hs) k = (h, AllUsage-append xs ys hs k)

usage_of-AllUsage :
    (warn crit : ℤ) (mount word : Text) (r : ℤ × Bool) → AllUsage (usage_of warn crit mount word r)
unfolding usage_of usage_finding
usage_of-AllUsage warn crit mount word (pct, false) = tt
usage_of-AllUsage warn crit mount word (pct, true) = ground arith

usage_line-AllUsage : (warn crit : ℤ) (ws : List Text) → AllUsage (usage_line warn crit ws)
unfolding usage_line
usage_line-AllUsage warn crit [] = tt
usage_line-AllUsage warn crit (a ∷ []) = tt
usage_line-AllUsage warn crit (a ∷ b ∷ []) = tt
usage_line-AllUsage warn crit (a ∷ b ∷ c ∷ []) = tt
usage_line-AllUsage warn crit (a ∷ b ∷ c ∷ d ∷ []) = tt
usage_line-AllUsage warn crit (a ∷ b ∷ c ∷ d ∷ e ∷ []) = tt
usage_line-AllUsage warn crit (fs ∷ size ∷ used ∷ free ∷ usage ∷ mount ∷ more) =
    if_intro AllUsage (text_eq fs (lit "Filesystem")) []
      (usage_of warn crit mount (trim_suffix usage (lit "%")) (atoi (trim_suffix usage (lit "%"))))
      (λ e. tt)
      (λ e.
        usage_of-AllUsage warn crit mount (trim_suffix usage (lit "%"))
          (atoi (trim_suffix usage (lit "%"))))

usage_lines-AllUsage : (warn crit : ℤ) (ls : List Text) → AllUsage (usage_lines warn crit ls)
unfolding usage_lines
usage_lines-AllUsage warn crit [] = tt
usage_lines-AllUsage warn crit (l ∷ ls) =
    AllUsage-append (usage_line warn crit (fields l)) (usage_lines warn crit ls)
      (usage_line-AllUsage warn crit (fields l)) (usage_lines-AllUsage warn crit ls)

pub parse_disk_usage-All :
    (raw : Text) (warn crit : ℤ) → All (Of (lit "hw_disk_usage")) (parse_disk_usage raw warn crit)
unfolding parse_disk_usage
parse_disk_usage-All raw warn crit = usage_lines-AllUsage warn crit (split_at b'\n' [] raw)

smart_health-Of :
    (dev raw : Text) (o : Option Found) → Of (lit "hw_disk_smart") (smart_health dev raw o)
unfolding smart_health smart
smart_health-Of dev raw none = (refl, refl)
smart_health-Of dev raw (some f) = ground arith

smart_life-Of :
    (dev raw : Text) (warn crit : ℤ) (o : Option Found)
    → Of (lit "hw_disk_smart") (smart_life dev raw warn crit o)
unfolding smart_life smart
smart_life-Of dev raw warn crit none =
    ground (arith, smart_health-Of dev raw (find smart_health_re raw))
smart_life-Of dev raw warn crit (some f) = (refl, refl)

pub parse_smart-Of :
    (dev raw : Text) (warn crit : ℤ) → Of (lit "hw_disk_smart") (parse_smart dev raw warn crit)
unfolding parse_smart smart
parse_smart-Of dev raw warn crit =
    ground (arith, smart_life-Of dev raw warn crit (find smart_pct_re raw))

load_of-Of :
    {F : Type 0} (fl : Floats F) (raw : Text) (cores : ℤ) (warn : F) (o : Option Found)
    → Of (lit "hw_cpu") (load_of fl raw cores warn o)
unfolding load_of load_unknown load_ratio
load_of-Of fl raw cores warn none = (refl, refl)
load_of-Of fl raw cores warn (some f) = ground arith

pub parse_load-Of :
    {F : Type 0} (fl : Floats F) (raw : Text) (cores : ℤ) (warn : F)
    → Of (lit "hw_cpu") (parse_load fl raw cores warn)
unfolding parse_load
parse_load-Of fl raw cores warn = load_of-Of fl raw cores warn (find load_re raw)

nic_finding-Of : (raw : Text) (ds : List Text) → Of (lit "hw_nic") (nic_finding raw ds)
unfolding nic_finding
nic_finding-Of raw [] = (refl, refl)
nic_finding-Of raw (d ∷ ds) = (refl, refl)

pub parse_nic-Of : (raw : Text) → Of (lit "hw_nic") (parse_nic raw)
unfolding parse_nic
parse_nic-Of raw = ground (
  arith,
  nic_finding-Of raw (nic_scan (split_at b'\n' [] raw) (record { cur_slave = []; down = [] })).down,
)

bond_finding-Of : (raw : Text) (sc : BondScan) → Of (lit "hw_bond") (bond_finding raw sc)
unfolding bond_finding
bond_finding-Of raw sc = ground arith

pub parse_bond-Of : (raw : Text) → Of (lit "hw_bond") (parse_bond raw)
unfolding parse_bond
parse_bond-Of raw = ground (
  arith,
  bond_finding-Of raw
      (bond_scan (split_at b'\n' [] raw) (record { fail_total = pos 0; mii_down = false })),
)
