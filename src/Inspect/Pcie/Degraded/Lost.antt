-- ===== src/Inspect/Pcie/Degraded/Lost.antt =====
-- Grouping the degraded links.
use mathlib.Core.List.{Perm, perm_middle}
use mathlib.Core.List.Perm
use storage_bot.Base.{
  ◌≡◌, subst, sym, Bool, true, false, List, [], ◌∷◌, ◌++◌, append_assoc, append-nil, Option, none,
  some, if_intro, keep, if◌then◌else◌, ◌↔◌, arith,
}
use storage_bot.Inspect.Level.{Level, level_critical}
use storage_bot.Inspect.Ceph.{Floats}
use storage_bot.Inspect.Pcie.{PcieDev}
use storage_bot.Inspect.Pcie.Degraded.{
  Group, report_level, is_checked, width_down, is_silenced, same_link, add_to_groups, group_one,
  group_from, groups_of,
}

unfoldable pub members : {F : Type 0} → List (Group F) → List (PcieDev F)
members [] = []
members (g ∷ gs) = g.first ∷ (g.more ++ members gs)

is_some : {A : Type 0} → Option A → Bool
is_some none = false
is_some (some a) = true

module _ {F : Type 0} (fl : Floats F) where
  unfoldable pub is_reported : F → PcieDev F → Bool
  unfolding is_some
  is_reported floor d = is_some (report_level fl floor d)

  members-add_to_groups :
      (level : Level) (d : PcieDev F) (gs : List (Group F))
      → Perm (members (add_to_groups fl level d gs)) (d ∷ members gs)
  unfolding members add_to_groups
  members-add_to_groups level d [] = Perm.rfl
  members-add_to_groups level d (g ∷ gs) =
      if_intro (λ hs. Perm (members hs) (d ∷ members (g ∷ gs))) (same_link fl g.first d) _ _
        (λ e.
          Perm.trans
            (Perm.cons g.first (
              subst (λ l. Perm l (d ∷ (g.more ++ members gs)))
                (sym (append_assoc g.more (d ∷ []) (members gs)))
                (perm_middle g.more (members gs))))
            (Perm.swap d g.first (g.more ++ members gs)))
        (λ e.
          Perm.trans
            (Perm.cons g.first (
              Perm.trans (Perm.append_left g.more (members-add_to_groups level d gs))
                (perm_middle g.more (members gs))))
            (Perm.swap d g.first (g.more ++ members gs)))

  members-group_one :
      (o : Option Level) (d : PcieDev F) (rest : List (PcieDev F)) (gs : List (Group F))
      → Perm
          (rest ++ members (group_one fl o d gs))
          ((if is_some o then d ∷ rest else rest) ++ members gs)
  unfolding is_some group_one
  members-group_one none d rest gs = Perm.rfl
  members-group_one (some level) d rest gs =
      Perm.trans (Perm.append_left rest (members-add_to_groups level d gs))
        (perm_middle rest (members gs))

  members-group_from :
      (floor : F) (ds : List (PcieDev F)) (gs : List (Group F))
      → Perm (members (group_from fl floor ds gs)) (keep (is_reported floor) ds ++ members gs)
  unfolding group_from is_reported
  members-group_from floor [] gs = Perm.rfl
  members-group_from floor (d ∷ ds) gs =
      Perm.trans (members-group_from floor ds (group_one fl (report_level fl floor d) d gs))
        (members-group_one (report_level fl floor d) d (keep (is_reported floor) ds) gs)

  -- The groups hold the degraded devices and no others, each as often as it was given. A device is
  -- degraded critically exactly if both its link lines could be read and it has fewer lanes than
  -- rated: no configured floor for the speed silences it.
  pub members-groups_of :
      (floor : F) (ds : List (PcieDev F))
      → Perm (members (groups_of fl floor ds)) (keep (is_reported floor) ds)
        × ((d : PcieDev F)
            → (report_level fl floor d ≡ some level_critical)
              ↔ ((is_checked fl d ≡ true) × (width_down fl d ≡ true)))
  unfolding groups_of members report_level is_silenced
  members-groups_of floor ds = (
    subst (λ l. Perm (members (group_from fl floor ds [])) l)
        (append-nil (keep (is_reported floor) ds)) (members-group_from floor ds []),
    λ d. ground arith,
  )
