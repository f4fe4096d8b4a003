-- ===== src/Inspect/Pcie/Degraded.antt =====
-- inspect/hardware_parse.go: the links below their ratings, grouped, and their findings.
pub mod Items
pub mod Lost
use storage_bot.Base.{
  ℕ, suc, ◌+◌, Bool, true, false, not, ◌&&◌, ◌||◌, List, [], ◌∷◌, ◌++◌, Text, lit, cat, join,
  text_eq, if◌then◌else◌, Option, none, some, contains, trim_space, split_at, has_prefix, fields,
  map, length, ◌==◌, leb, is_digit, cut, reverse, text_lt, keep, ltb,
}
use storage_bot.Base.Int.{ℤ, pos, ltb_ℤ}
use storage_bot.Base.Decimal.{atoi, itoa}
use storage_bot.Regex.{
  Re, Found, empty, one, many, seq, group, text_begin, text_end, find, match_string, group_of,
}
use storage_bot.Inspect.Level.{
  Level, level_ok, level_warn, level_critical, level_unknown, Finding, Metrics, finding,
}
use storage_bot.Inspect.Ceph.{Floats, literal, is_decimal}
use storage_bot.Inspect.Pcie.{PcieDev}

-- The devices that are reported together.
pub record Group (F : Type 0) : Type 0 where
  pub level : Level
  pub first : PcieDev F
  pub more : List (PcieDev F)

module _ {F : Type 0} (fl : Floats F) where
  unfoldable pub width_down : PcieDev F → Bool
  width_down d = ltb_ℤ d.sta_width d.cap_width

  unfoldable pub speed_down : PcieDev F → Bool
  speed_down d = fl.ltb_F d.sta_speed d.cap_speed

  abbrev is_zero : ℤ → Bool
  is_zero n = not (ltb_ℤ n (pos 0)) && not (ltb_ℤ (pos 0) n)

  -- Both lines could be read.
  unfoldable pub is_checked : PcieDev F → Bool
  is_checked d = not (
      fl.eq_F d.cap_speed fl.zero_F
      || is_zero d.cap_width
      || fl.eq_F d.sta_speed fl.zero_F
      || is_zero d.sta_width)

  -- A lower speed that is not below the floor, at full width.
  unfoldable pub is_silenced : F → PcieDev F → Bool
  is_silenced floor d =
      is_checked d
      && speed_down d
      && not (width_down d)
      && fl.ltb_F fl.zero_F floor
      && fl.leb_F floor d.sta_speed

  -- The level at which a device is reported, if it is.
  unfoldable pub report_level : F → PcieDev F → Option Level
  report_level floor d =
      if not (is_checked d)
      then none
      else (if not (width_down d) && not (speed_down d)
          then none
          else (if is_silenced floor d
              then none
              else (if width_down d then some level_critical else some level_warn)))

  same_int : ℤ → ℤ → Bool
  same_int a b = not (ltb_ℤ a b) && not (ltb_ℤ b a)

  -- Devices of one kind with the same rated and negotiated link; their level is then the same.
  same_link : PcieDev F → PcieDev F → Bool
  unfolding same_int
  same_link d e =
      text_eq d.kind e.kind
      && fl.eq_F d.cap_speed e.cap_speed
      && fl.eq_F d.sta_speed e.sta_speed
      && same_int d.cap_width e.cap_width
      && same_int d.sta_width e.sta_width

  unfoldable pub add_to_groups : Level → PcieDev F → List (Group F) → List (Group F)
  unfolding same_link
  add_to_groups level d [] = record { level = level; first = d; more = [] } ∷ []
  add_to_groups level d (g ∷ gs) =
      let further = add_to_groups level d gs in
      if same_link g.first d then record g { more = g.more ++ d ∷ [] } ∷ gs else g ∷ further

  group_one : Option Level → PcieDev F → List (Group F) → List (Group F)
  group_one none d gs = gs
  group_one (some level) d gs = add_to_groups level d gs

  group_from : F → List (PcieDev F) → List (Group F) → List (Group F)
  unfolding group_one
  group_from floor [] gs = gs
  group_from floor (d ∷ ds) gs = group_from floor ds (group_one (report_level floor d) d gs)

  unfoldable pub groups_of : F → List (PcieDev F) → List (Group F)
  unfolding group_from
  groups_of floor ds = group_from floor ds []

  dev_id : PcieDev F → Text
  dev_id d = if text_eq d.name [] then d.bdf else cat (d.name ∷ lit "(" ∷ d.bdf ∷ lit ")" ∷ [])

  subject_of : PcieDev F → List (PcieDev F) → Text
  unfolding dev_id
  subject_of d [] = cat (d.kind ∷ lit " " ∷ dev_id d ∷ [])
  subject_of d (e ∷ es) = cat (d.kind ∷ lit " ×" ∷ itoa (pos (length (d ∷ e ∷ es))) ∷ [])

  speed_texts : PcieDev F → Text → Text × Text
  speed_texts d subject = (
    cat (
        subject
        ∷ lit " PCIe 链路速率降级："
        ∷ fl.shortest d.cap_speed
        ∷ lit "GT/s→"
        ∷ fl.shortest d.sta_speed
        ∷ lit "GT/s（宽度 x"
        ∷ itoa d.sta_width
        ∷ lit " 正常）"
        ∷ []),
    lit "PCIe 速率未跑满，检查 BIOS PCIe 配置/信号质量，吞吐会下降",
  )

  link_texts : Level → PcieDev F → Text → Text × Text
  link_texts level_critical d subject = (
    cat (
        subject
        ∷ lit " PCIe 链路降级：宽度 x"
        ∷ itoa d.cap_width
        ∷ lit "→x"
        ∷ itoa d.sta_width
        ∷ lit "，速率 "
        ∷ fl.shortest d.cap_speed
        ∷ lit "GT/s→"
        ∷ fl.shortest d.sta_speed
        ∷ lit "GT/s"
        ∷ []),
    lit "PCIe lane 数下降，检查插槽接触/插拔重插，性能会显著受损",
  )
  link_texts level_ok d subject = speed_texts d subject
  link_texts level_warn d subject = speed_texts d subject
  link_texts level_unknown d subject = speed_texts d subject

  unfoldable pub build_pcie_finding : Group F → Finding
  unfolding dev_id subject_of speed_texts link_texts
  build_pcie_finding g =
      let d = g.first in
      let ids = join (map dev_id (d ∷ g.more)) (lit ", ") in
      let count = itoa (pos (length (d ∷ g.more))) in
      let texts = link_texts g.level d (subject_of d g.more) in
      record (finding (lit "hw_pcie_link") g.level texts.0) {
        metrics =
            (lit "kind", d.kind)
            ∷ (lit "count", count)
            ∷ (lit "names", ids)
            ∷ (lit "cap", d.cap_raw)
            ∷ (lit "sta", d.sta_raw)
            ∷ [];
        detail = cat (
            d.kind
            ∷ lit " "
            ∷ d.model
            ∷ lit "\nLnkCap: "
            ∷ d.cap_raw
            ∷ lit "\nLnkSta: "
            ∷ d.sta_raw
            ∷ lit "\n受影响设备("
            ∷ count
            ∷ lit ")："
            ∷ ids
            ∷ []);
        advice = texts.1;
      }

  all_well : F → List (PcieDev F) → Text
  all_well floor ds =
      if length (keep is_checked ds) == 0
      then lit "未发现可检测的 NVMe/网卡 PCIe 链路"
      else (if ltb 0 (length (keep (is_silenced floor) ds))
          then cat (
              lit "PCIe 链路正常（"
              ∷ itoa (pos (length (keep (is_silenced floor) ds)))
              ∷ lit " 块仅速率降级但 ≥"
              ∷ fl.shortest floor
              ∷ lit "GT/s，视为故意配置）"
              ∷ [])
          else lit "PCIe 链路速率/宽度正常")

  or_all_well : F → List (PcieDev F) → List (Group F) → List Finding
  unfolding all_well
  or_all_well floor ds [] = finding (lit "hw_pcie_link") level_ok (all_well floor ds) ∷ []
  or_all_well floor ds (g ∷ gs) = map build_pcie_finding (g ∷ gs)

  unfoldable pub eval_pcie_links : List (PcieDev F) → F → List Finding
  unfolding or_all_well
  eval_pcie_links ds floor = or_all_well floor ds (groups_of floor ds)
