-- ===== src/Inspect/Pcie/Degraded/Items.antt =====
-- The findings on the links are about their inspector, and there is always one.
use storage_bot.Base.{◌≢◌, refl, List, [], ◌∷◌, lit, All, map}
use storage_bot.Inspect.Level.{Of}
use storage_bot.Inspect.Ceph.{Floats}
use storage_bot.Inspect.Pcie.{PcieDev}
use storage_bot.Inspect.Pcie.Degraded.{
  Group, build_pcie_finding, groups_of, or_all_well, eval_pcie_links,
}

module _ {F : Type 0} (fl : Floats F) where
  built-All : (gs : List (Group F)) → All (Of (lit "hw_pcie_link")) (map (build_pcie_finding fl) gs)
  unfolding build_pcie_finding
  built-All [] = tt
  built-All (g ∷ gs) = ((refl, refl), built-All gs)

  or_all_well-All :
      (floor : F) (ds : List (PcieDev F)) (gs : List (Group F))
      → All (Of (lit "hw_pcie_link")) (or_all_well fl floor ds gs)
  unfolding or_all_well
  or_all_well-All floor ds [] = ((refl, refl), tt)
  or_all_well-All floor ds (g ∷ gs) = built-All (g ∷ gs)

  or_all_well-ne :
      (floor : F) (ds : List (PcieDev F)) (gs : List (Group F)) → or_all_well fl floor ds gs ≢ []
  unfolding or_all_well
  or_all_well-ne floor ds [] e = cc
  or_all_well-ne floor ds (g ∷ gs) e = cc

  pub eval_pcie_links-All :
      (ds : List (PcieDev F)) (floor : F)
      → All (Of (lit "hw_pcie_link")) (eval_pcie_links fl ds floor)
        × (eval_pcie_links fl ds floor ≢ [])
  unfolding eval_pcie_links
  eval_pcie_links-All ds floor = (
    or_all_well-All floor ds (groups_of fl floor ds),
    or_all_well-ne floor ds (groups_of fl floor ds),
  )
