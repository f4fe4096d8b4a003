-- ===== src/Inspect/Runner/Complete.antt =====
-- No node and no item is missing in a finished report.
use mathlib.Core.List.{Mem, mem-cons, not-mem-nil}
use mathlib.Core.List.Perm
use mathlib.Core.Logic.Or
use mathlib.Core.Bool.{Bool-set}
use storage_bot.Base.{
  ℕ, ◌≡◌, refl, sym, ap, ap₂, ◌∙◌, subst, Bool, true, false, ◌&&◌, ◌||◌, List, [], ◌∷◌, ◌++◌, map,
  append-nil, All, any, any-append, keep, Text, text_eq, text_eq_refl, ||_iff, &&_iff, inl, inr,
  if_intro,
}
use storage_bot.Base.Result.{Result, err, ok}
use storage_bot.Executor.{SshNode}
use storage_bot.Inspect.Level.{Finding}
use storage_bot.Inspect.Inspectors.{
  Scope, Inspector, node_scope, cluster_scope, by_scope, is_of, registry,
}
use storage_bot.Inspect.Inspectors.Named.{Reported, Reports}
use storage_bot.Inspect.Inspectors.Registered.{Keeps, place, registry-Keeps}
use storage_bot.Inspect.Runner.{
  Setting, Phase, Run, IsDone, begin, node_context, located, or_name, or_none, cluster_findings,
}
use storage_bot.Inspect.Runner.Blocks.{Block, all_of, Inspected, nodes_phase-Inspected}

-- A finding of this inspector on this node.
unfoldable pub is_about : {W F : Type 0} → SshNode → Inspector W F → Finding → Bool
is_about n i f = text_eq f.item i.name && text_eq f.node n.name

-- Each of the inspectors has a finding on the node.
unfoldable pub is_complete : {W F : Type 0} → List Finding → List (Inspector W F) → SshNode → Bool
is_complete fs [] n = true
is_complete fs (i ∷ is) n = any (is_about n i) fs && is_complete fs is n

or_name_self : (s : Text) → or_name s s ≡ s
unfolding or_name
or_name_self [] = refl
or_name_self (c ∷ s) = refl

module _ {W F : Type 0} (n : SshNode) where
  complete_before :
      (is : List (Inspector W F)) (fs gs : List Finding)
      → is_complete fs is n ≡ true
      → is_complete (fs ++ gs) is n ≡ true
  unfolding is_complete
  complete_before [] fs gs h = refl
  complete_before (i ∷ is) fs gs h =
      let (a, b) = (&&_iff (any (is_about n i) fs) (is_complete fs is n)).0 h in
      rw (any-append (is_about n i) fs gs, a, complete_before is fs gs b) refl

  complete_after :
      (is : List (Inspector W F)) (fs gs : List Finding)
      → is_complete gs is n ≡ true
      → is_complete (fs ++ gs) is n ≡ true
  unfolding is_complete
  complete_after [] fs gs h = refl
  complete_after (i ∷ is) fs gs h =
      let (a, b) = (&&_iff (any (is_about n i) gs) (is_complete gs is n)).0 h in
      let found : (any (is_about n i) fs || any (is_about n i) gs) ≡ true =
        (||_iff _ _).1 (inr a) in
      rw (any-append (is_about n i) fs gs, found, complete_after is fs gs b) refl

module _ {W F : Type 0} (st : Setting W F) (n : SshNode) where
  located-about :
      (i : Inspector W F) (fs : List Finding)
      → Reported i.name n.name fs
      → any (is_about n i) (map (located st n) fs) ≡ true
  unfolding is_about located
  located-about i [] (ne, h) = absurd (ne refl)
  located-about i (f ∷ fs) (ne, ((h, k), hs)) =
      let named : or_name f.node n.name ≡ n.name =
        ap (λ s. or_name s n.name) k ∙ or_name_self n.name in
      rw (h, named, text_eq_refl i.name, text_eq_refl n.name) refl

  or_none-Reported :
      (item node : Text) (r : Result (List Finding) × W)
      → Reports item node r
      → Reported item node (or_none r.0)
  unfolding or_none
  or_none-Reported item node (err e, w) h = absurd h
  or_none-Reported item node (ok fs, w) h = h

  Inspected-complete :
      (is : List (Inspector W F)) (fs : List Finding)
      → All (λ i. (v : W) → Reports i.name n.name (i.inspect (node_context st n) v)) is
      → Inspected st n is fs
      → is_complete fs is n ≡ true
  unfolding Inspected is_complete
  Inspected-complete [] fs h k = refl
  Inspected-complete (i ∷ is) fs (h, hs) (v, rest, e, k) =
      let new = or_none (i.inspect (node_context st n) v).0 in
      let found : any (is_about n i) (map (located st n) new) ≡ true =
        located-about i new
          (or_none-Reported i.name n.name (i.inspect (node_context st n) v) (h v)) in
      let both : (any (is_about n i) (map (located st n) new) || any (is_about n i) rest) ≡ true =
        (||_iff _ _).1 (inl found) in
      subst (λ l. is_complete l (i ∷ is) n ≡ true) (sym e)
        (rw
          (
            any-append (is_about n i) (map (located st n) new) rest,
            both,
            complete_after n is (map (located st n) new) rest (Inspected-complete is rest hs k),
          )
          refl)

All-each :
    {A W : Type 0} (P : W → A → Type 0) (xs : List A)
    → ((v : W) → All (P v) xs)
    → All (λ x. (v : W) → P v x) xs
All-each P [] h = tt
All-each P (x ∷ xs) h = (λ v. (h v).0, All-each P xs (λ v. (h v).1))

at_nodes :
    (sc : Scope) (s : Text)
    → (elim sc [ cluster_scope ↦ false | node_scope ↦ true ]) ≡ true
    → place s sc ≡ s
unfolding place
at_nodes cluster_scope s h = absurd cc
at_nodes node_scope s h = refl

module _ {W F : Type 0} (st : Setting W F) (n : SshNode) where
  Kept : Inspector W F → Type 0
  Kept i = (v : W) → Reports i.name (place n.name i.scope) (i.inspect (node_context st n) v)

  Reporting : Inspector W F → Type 0
  Reporting i = (v : W) → Reports i.name n.name (i.inspect (node_context st n) v)

  node_scope-Reporting :
      (is : List (Inspector W F)) → All Kept is → All Reporting (by_scope node_scope is)
  unfolding Kept Reporting by_scope is_of
  node_scope-Reporting [] h = tt
  node_scope-Reporting (i ∷ is) (h, hs) =
      if_intro (All Reporting) (is_of node_scope i) (i ∷ keep (is_of node_scope) is)
        (keep (is_of node_scope) is)
        (λ e. (
          λ v.
              subst (λ s. Reports i.name s (i.inspect (node_context st n) v))
                (at_nodes i.scope n.name e) (h v),
          node_scope-Reporting is hs,
        ))
        (λ e. node_scope-Reporting is hs)

  registry-Kept : All Kept registry
  unfolding Kept node_context
  registry-Kept = All-each (Keeps (node_context st n)) registry (registry-Keeps (node_context st n))

member_block :
    {W F : Type 0} (is : List (Inspector W F)) (bs : List Block) (n : SshNode)
    → Mem n (map (λ b. b.0) bs)
    → All (λ b. is_complete b.1 is b.0 ≡ true) bs
    → is_complete (all_of bs) is n ≡ true
unfolding all_of
member_block is [] n m h = absurd (not-mem-nil m)
member_block is ((k, fs) ∷ bs) n m (h, hs) =
    Or.elim (Bool-set _ _) (mem-cons.0 m)
      (λ e. complete_before n is fs (all_of bs) (subst (λ a. is_complete fs is a ≡ true) (sym e) h))
      (λ r. complete_after n is fs (all_of bs) (member_block is bs n r hs))

blocks_complete :
    {W F : Type 0} (st : Setting W F) (bs : List Block)
    → All (λ b. Inspected st b.0 (by_scope node_scope registry) b.1) bs
    → All (λ b. is_complete b.1 (by_scope node_scope (registry {W = W} {F = F})) b.0 ≡ true) bs
unfolding Reporting
blocks_complete st [] h = tt
blocks_complete st ((n, fs) ∷ bs) (h, hs) = (
  Inspected-complete st n (by_scope node_scope registry) fs
      (node_scope-Reporting st n registry (registry-Kept st n)) h,
  blocks_complete st bs hs,
)

-- Once the goroutines have ended, in whatever order they ran and whatever the executors answered,
-- every inspector of a node has at least one finding under its name and the node's for each of the
-- given nodes.
pub nodes_phase_complete :
    {W F : Type 0} (st : Setting W F) (places : ℕ) (nodes : List SshNode) (w : W) {k : ℕ}
    {u : Phase W F}
    → Run st (by_scope node_scope registry) places (begin st registry nodes w) k u
    → IsDone u
    → (n : SshNode) → Mem n nodes
    → is_complete u.findings (by_scope node_scope (registry {W = W} {F = F})) n ≡ true
nodes_phase_complete {W} {F} st places nodes w {u} r (no_waiting, no_running) n m =
    let is = by_scope node_scope (registry {W = W} {F = F}) in
    let (bs, p, e, h, room) = nodes_phase-Inspected st places registry nodes w r in
    let names = map (λ (b : Block). b.0) bs in
    let here : Mem n (names ++ (map (λ k. k.node) u.running ++ u.waiting)) = (Perm.mem_iff p).1 m in
    let through : Mem n names = subst (Mem n) (append-nil names) (
      subst (λ l. Mem n (names ++ l))
        (ap₂ (λ ks ns. map (λ k. k.node) ks ++ ns) no_running no_waiting) here) in
    let each = blocks_complete st bs h in
    subst (λ l. is_complete l is n ≡ true) (sym e)
      (complete_after n is (cluster_findings st (by_scope cluster_scope registry) w).0 (all_of bs)
        (member_block is bs n through each))
