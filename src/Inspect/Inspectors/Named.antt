-- ===== src/Inspect/Inspectors/Named.antt =====
-- What each inspector's findings are about.
use storage_bot.Base.{
  ◌≡◌, ◌≢◌, refl, ◌||◌, List, [], ◌∷◌, ◌++◌, Text, lit, if_intro, All, map, contains, trim_space,
  fields,
}
use storage_bot.Base.Decimal.{atoi}
use storage_bot.Base.Result.{Result, err, ok}
use storage_bot.Inspect.Level.{level_unknown, Finding, finding, Of}
use storage_bot.Inspect.Hardware.{parse_load}
use storage_bot.Inspect.Hardware.Items.{parse_smart-Of, parse_load-Of}
use storage_bot.Inspect.Pcie.{PcieMeta, parse_lspci_links, sort_pcie_devs}
use storage_bot.Inspect.Pcie.Degraded.{eval_pcie_links}
use storage_bot.Inspect.Pcie.Degraded.Items.{eval_pcie_links-All}
use storage_bot.Inspect.Inspectors.{
  InspectContext, failed, at_node, of_ceph, of_node, run_on_node, output_on_node, or_usage_ok,
  shown, load_known, smart_each, or_no_disk, disks_known, links_of, links_wanted,
}

-- At least one finding, and each under this inspector's name and this node.
abbrev pub Reported : Text → Text → List Finding → Type 0
Reported item node fs = (fs ≢ []) × All (λ f. (f.item ≡ item) × (f.node ≡ node)) fs

-- A call gives no error, and its findings are reported.
abbrev pub Reports : {W : Type 0} → Text → Text → Result (List Finding) × W → Type 0
Reports item node (err e, w) = ⊥
Reports item node (ok fs, w) = Reported item node fs

one-Reported :
    (item node : Text) (f : Finding) → f.item ≡ item → f.node ≡ node → Reported item node (f ∷ [])
one-Reported item node f h k = (λ e. cc, ((h, k), tt))

pub of_ceph-Reports :
    {W : Type 0} (item : Text) (parse : Text → Finding) (r : Result Text × W)
    → ((raw : Text) → Of item (parse raw))
    → Reports item [] (of_ceph item parse r)
unfolding of_ceph failed
of_ceph-Reports item parse (err e, w) h = one-Reported item [] (failed item e) refl refl
of_ceph-Reports item parse (ok raw, w) h = one-Reported item [] (parse raw) (h raw).0 (h raw).1

located-All :
    (item node : Text) (fs : List Finding)
    → All (Of item) fs
    → All (λ f. (f.item ≡ item) × (f.node ≡ node)) (map (at_node node) fs)
unfolding at_node
located-All item node [] h = tt
located-All item node (f ∷ fs) ((h, n), hs) = ((h, refl), located-All item node fs hs)

located-Reported :
    (item node : Text) (fs : List Finding)
    → fs ≢ []
    → All (Of item) fs
    → Reported item node (map (at_node node) fs)
located-Reported item node [] n h = absurd (n refl)
located-Reported item node (f ∷ fs) n h = (λ e. cc, located-All item node (f ∷ fs) h)

pub of_node-Reports :
    {W : Type 0} (item node : Text) (parse : Text → List Finding) (r : Result Text × W)
    → ((raw : Text) → (parse raw ≢ []) × All (Of item) (parse raw))
    → Reports item node (of_node item node parse r)
unfolding of_node failed at_node
of_node-Reports item node parse (err e, w) h =
    one-Reported item node (at_node node (failed item e)) refl refl
of_node-Reports item node parse (ok raw, w) h =
    located-Reported item node (parse raw) (h raw).0 (h raw).1

pub one_of : (item : Text) (f : Finding) → Of item f → (f ∷ [] ≢ []) × All (Of item) (f ∷ [])
one_of item f h = (λ e. cc, (h, tt))

pub or_usage_ok-All :
    (fs : List Finding)
    → All (Of (lit "hw_disk_usage")) fs
    → (or_usage_ok fs ≢ []) × All (Of (lit "hw_disk_usage")) (or_usage_ok fs)
unfolding or_usage_ok
or_usage_ok-All [] h = (λ e. cc, ((refl, refl), tt))
or_usage_ok-All (f ∷ fs) h = (λ e. cc, h)

module _ {W F : Type 0} (ic : InspectContext W F) where
  pub load_known-Reports :
      (r : Result Text × W) → Reports (lit "hw_cpu") ic.node.name (load_known ic r)
  unfolding load_known failed at_node
  load_known-Reports (err e, w) =
      one-Reported (lit "hw_cpu") ic.node.name (at_node ic.node.name (failed (lit "hw_cpu") e)) refl
        refl
  load_known-Reports (ok cores, w) =
      of_node-Reports (lit "hw_cpu") ic.node.name
        (λ raw.
          parse_load ic.floats raw (atoi (trim_space cores)).0 ic.thresholds.load_warn_ratio ∷ [])
        (run_on_node ic (lit "uptime") w)
        (λ raw.
          one_of (lit "hw_cpu")
            (parse_load ic.floats raw (atoi (trim_space cores)).0 ic.thresholds.load_warn_ratio)
            (parse_load-Of ic.floats raw (atoi (trim_space cores)).0 ic.thresholds.load_warn_ratio))

  smart_each-All :
      (names : List Text) (w : W)
      → All
          (λ f. (f.item ≡ lit "hw_disk_smart") × (f.node ≡ ic.node.name))
          (smart_each ic names w).0
  unfolding smart_each at_node
  smart_each-All [] w = tt
  smart_each-All (name ∷ names) w =
      let run =
        output_on_node ic
          ((lit "smartctl -A -H ") ++ ((lit "/dev/" ++ name) ++ (lit " 2>&1" ++ []))) w in
      (
        (
          (parse_smart-Of (lit "/dev/" ++ name) (shown run.0) ic.thresholds.disk_life_warn_pct
              ic.thresholds.disk_life_crit_pct).0,
          refl,
        ),
        smart_each-All names run.1,
      )

  or_no_disk-Reported :
      (fs : List Finding)
      → All (λ f. (f.item ≡ lit "hw_disk_smart") × (f.node ≡ ic.node.name)) fs
      → Reported (lit "hw_disk_smart") ic.node.name (or_no_disk ic fs)
  unfolding or_no_disk at_node
  or_no_disk-Reported [] h = (λ e. cc, ((refl, refl), tt))
  or_no_disk-Reported (f ∷ fs) h = (λ e. cc, h)

  pub disks_known-Reports :
      (r : Result Text × W) → Reports (lit "hw_disk_smart") ic.node.name (disks_known ic r)
  unfolding disks_known failed at_node
  disks_known-Reports (err e, w) =
      one-Reported (lit "hw_disk_smart") ic.node.name
        (at_node ic.node.name (failed (lit "hw_disk_smart") e)) refl refl
  disks_known-Reports (ok listed, w) =
      or_no_disk-Reported (smart_each ic (fields listed) w).0 (smart_each-All (fields listed) w)

  links_of-Reported :
      (want : List (Text × PcieMeta)) (raw : Text)
      → Reported (lit "hw_pcie_link") ic.node.name (links_of ic want raw)
  unfolding links_of at_node
  links_of-Reported want raw =
      let devs = sort_pcie_devs ic.floats (parse_lspci_links ic.floats raw want) in
      let (all, some_there) = eval_pcie_links-All ic.floats devs ic.thresholds.pcie_min_speed_gts in
      if_intro (Reported (lit "hw_pcie_link") ic.node.name)
        (contains raw (lit "command not found") || contains raw (lit "not installed")) _ _
        (λ e.
          one-Reported (lit "hw_pcie_link") ic.node.name
            (record (finding (lit "hw_pcie_link") level_unknown (lit "lspci 不可用")) {
              node = ic.node.name;
              advice = lit "节点未安装 pciutils，建议 `yum install pciutils`";
            })
            refl refl)
        (λ e.
          located-Reported (lit "hw_pcie_link") ic.node.name
            (eval_pcie_links ic.floats devs ic.thresholds.pcie_min_speed_gts) some_there all)

  pub links_wanted-Reports :
      (r : List (Text × PcieMeta) × W)
      → Reports (lit "hw_pcie_link") ic.node.name (links_wanted ic r)
  unfolding links_wanted at_node
  links_wanted-Reports ([], w) = (λ e. cc, ((refl, refl), tt))
  links_wanted-Reports (d ∷ want, w) =
      links_of-Reported (d ∷ want) (shown (output_on_node ic (lit "lspci -Dvvv 2>&1") w).0)
