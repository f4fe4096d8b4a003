-- ===== src/Inspect/Pcie.antt =====
-- inspect/hardware_parse.go: the links of NVMe drives and network cards.
pub mod Degraded
use storage_bot.Base.{
  ℕ, suc, ◌+◌, Bool, true, false, not, ◌&&◌, ◌||◌, List, [], ◌∷◌, ◌++◌, Text, lit, cat, join,
  text_eq, if◌then◌else◌, Option, none, some, contains, trim_space, split_at, has_prefix, fields,
  map, length, ◌==◌, leb, is_digit, cut, reverse, text_lt, keep, ltb,
}
use storage_bot.Base.Int.{ℤ, pos, ltb_ℤ}
use storage_bot.Base.Decimal.{atoi, itoa}
use storage_bot.Regex.{
  Re, Found, empty, one, many, seq, group, text_begin, text_end, find, match_string, group_of,
}
use storage_bot.Inspect.Level.{
  Level, level_ok, level_warn, level_critical, level_unknown, Finding, Metrics, finding,
}
use storage_bot.Inspect.Ceph.{Floats, literal, is_decimal}

abbrev is_hex : ℕ → Bool
is_hex c = is_digit c || leb b'a' c && leb c b'f'

hex : Re
hex = one is_hex

unfoldable pub bdf_re : Re
unfolding hex
bdf_re = seq text_begin (
    seq hex (
      seq hex (
        seq hex (
          seq hex (
            seq (one (λ c. c == b':')) (
              seq hex (
                seq hex (
                  seq (one (λ c. c == b':'))
                    (seq hex (seq hex (seq (one (λ c. c == b'.')) (seq hex text_end))))))))))))

unfoldable pub pcie_speed_re : Re
unfolding literal
pcie_speed_re =
    seq (literal (lit "Speed "))
      (seq (group 1 (seq (one is_decimal) (many is_decimal))) (literal (lit "GT/s")))

unfoldable pub pcie_width_re : Re
unfolding literal
pcie_width_re = seq (literal (lit "Width x")) (group 1 (seq (one is_digit) (many is_digit)))

slave_name : Option (Text × Text) → List Text
slave_name none = []
slave_name (some (key, v)) =
    if not (text_eq (trim_space key) (lit "Slave Interface")) || text_eq (trim_space v) []
    then []
    else trim_space v ∷ []

slave_line : Option (Text × Text) → List Text
unfolding slave_name
slave_line none = []
slave_line (some (file, body)) = slave_name (cut (trim_space body) (lit ":"))

slave_lines : List Text → List Text
unfolding slave_line
slave_lines [] = []
slave_lines (l ∷ ls) = slave_line (cut l (lit ":")) ++ slave_lines ls

unfoldable pub parse_bond_slave_names : Text → List Text
unfolding slave_lines
parse_bond_slave_names raw = slave_lines (split_at b'\n' [] raw)

-- Base of package path.
strip_slashes : Text → Text
strip_slashes [] = []
strip_slashes (c ∷ s) = let rest = strip_slashes s in if c == b'/' then rest else c ∷ s

up_to_slash : Text → Text
up_to_slash [] = []
up_to_slash (c ∷ s) = let rest = up_to_slash s in if c == b'/' then [] else c ∷ rest

or_slash : Text → Text
or_slash [] = lit "/"
or_slash (c ∷ s) = c ∷ s

unfoldable pub base : Text → Text
unfolding strip_slashes up_to_slash or_slash
base [] = lit "."
base (c ∷ s) = or_slash (reverse (up_to_slash (strip_slashes (reverse (c ∷ s)))))

unfoldable pub bdf_from_readlink : Text → Text
bdf_from_readlink raw =
    if match_string bdf_re (base (trim_space raw)) then base (trim_space raw) else []

word_of : Option Found → Text
word_of none = []
word_of (some f) = f.word

unfoldable pub pcie_link_summary : Text → Text
unfolding word_of
pcie_link_summary s =
    trim_space
      (cat (word_of (find pcie_speed_re s) ∷ lit ", " ∷ word_of (find pcie_width_re s) ∷ []))

width_of : Option Found → ℤ
width_of none = pos 0
width_of (some f) = (atoi (group_of 1 f.groups)).0

unfoldable pub parse_pcie_width : Text → ℤ
unfolding width_of
parse_pcie_width s = width_of (find pcie_width_re s)

pub record PcieMeta : Type 0 where
  pub kind : Text
  pub name : Text

pub record PcieDev (F : Type 0) : Type 0 where
  pub bdf : Text
  pub kind : Text
  pub name : Text
  pub model : Text
  pub cap_speed : F
  pub cap_width : ℤ
  pub sta_speed : F
  pub sta_width : ℤ
  pub cap_raw : Text
  pub sta_raw : Text

-- The devices in the order of their headers, the last one first; `current` tells that the first of
-- them is the one whose lines are read.
pub record LinkScan (F : Type 0) : Type 0 where
  pub devs : List (PcieDev F)
  pub current : Bool

meta_of : List (Text × PcieMeta) → Text → Option PcieMeta
meta_of [] bdf = none
meta_of ((k, m) ∷ want) bdf = let rest = meta_of want bdf in if text_eq k bdf then some m else rest

model_of : Option (Text × Text) → Text
model_of none = []
model_of (some (before, desc)) = trim_space desc

module _ {F : Type 0} (fl : Floats F) where
  speed_of : Option Found → F
  speed_of none = fl.zero_F
  speed_of (some f) = (fl.parse_float (group_of 1 f.groups)).0

  unfoldable pub parse_pcie_speed : Text → F
  unfolding speed_of
  parse_pcie_speed s = speed_of (find pcie_speed_re s)

  -- A header of a device that is wanted; one with the same address takes the earlier one's place.
  started : Text → Text → Option PcieMeta → LinkScan F → LinkScan F
  started bdf line none sc = record sc { current = false }
  started bdf line (some m) sc =
      let dev : PcieDev F = record {
        bdf = bdf;
        kind = m.kind;
        name = m.name;
        model = model_of (cut line (lit ": "));
        cap_speed = fl.zero_F;
        cap_width = pos 0;
        sta_speed = fl.zero_F;
        sta_width = pos 0;
        cap_raw = [];
        sta_raw = [];
      } in
      record { devs = dev ∷ sc.devs; current = true }

  header : List (Text × PcieMeta) → Text → List Text → LinkScan F → LinkScan F
  unfolding started
  header want line [] sc = record sc { current = false }
  header want line (bdf ∷ more) sc =
      if not (match_string bdf_re bdf)
      then record sc { current = false }
      else started bdf line (meta_of want bdf) sc

  -- A line of the device, its spaces trimmed.
  capability : Text → PcieDev F → PcieDev F
  capability line d =
      if has_prefix line (lit "LnkCap:")
      then record d {
        cap_speed = parse_pcie_speed line;
        cap_width = parse_pcie_width line;
        cap_raw = pcie_link_summary line;
      }
      else (if has_prefix line (lit "LnkSta:")
          then record d {
            sta_speed = parse_pcie_speed line;
            sta_width = parse_pcie_width line;
            sta_raw = pcie_link_summary line;
          }
          else d)

  on_current : Text → LinkScan F → List (PcieDev F) → LinkScan F
  unfolding capability
  on_current line sc [] = sc
  on_current line sc (d ∷ ds) =
      if sc.current
      then record { devs = capability (trim_space line) d ∷ ds; current = true }
      else sc

  link_line : List (Text × PcieMeta) → Text → LinkScan F → LinkScan F
  unfolding header on_current
  link_line want [] sc = on_current [] sc sc.devs
  link_line want (c ∷ s) sc =
      if not (c == b' ') && not (c == 9)
      then header want (c ∷ s) (fields (c ∷ s)) sc
      else on_current (c ∷ s) sc sc.devs

  link_lines : List (Text × PcieMeta) → List Text → LinkScan F → LinkScan F
  unfolding link_line
  link_lines want [] sc = sc
  link_lines want (l ∷ ls) sc = link_lines want ls (link_line want l sc)

  -- The last device with this address.
  latest : Text → List (PcieDev F) → PcieDev F → PcieDev F
  latest bdf [] d = d
  latest bdf (e ∷ es) d = let rest = latest bdf es d in if text_eq e.bdf bdf then e else rest

  unfoldable pub parse_lspci_links : Text → List (Text × PcieMeta) → List (PcieDev F)
  unfolding link_lines latest model_of meta_of
  parse_lspci_links raw want =
      let devs =
        (link_lines want (split_at b'\n' [] raw) (record { devs = []; current = false })).devs in
      map (λ d. latest d.bdf devs d) (reverse devs)

  -- sort.Slice by the addresses, which differ.
  insert_dev : PcieDev F → List (PcieDev F) → List (PcieDev F)
  insert_dev d [] = d ∷ []
  insert_dev d (e ∷ es) =
      let further = insert_dev d es in if text_lt e.bdf d.bdf then e ∷ further else d ∷ e ∷ es

  unfoldable pub sort_pcie_devs : List (PcieDev F) → List (PcieDev F)
  unfolding insert_dev
  sort_pcie_devs [] = []
  sort_pcie_devs (d ∷ ds) = insert_dev d (sort_pcie_devs ds)
