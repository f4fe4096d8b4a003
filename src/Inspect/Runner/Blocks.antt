-- ===== src/Inspect/Runner/Blocks.antt =====
-- The findings of the nodes when their goroutines have ended.
use mathlib.Core.List.{Perm, perm_middle, map-append}
use mathlib.Core.List.Perm
use storage_bot.Base.{
  ℕ, suc, ◌≡◌, ◌≤◌, ◌<◌, refl, sym, ap, ◌∙◌, subst, arith, List, [], ◌∷◌, ◌++◌, map, append_assoc,
  append-nil, length, length-append, All, All-append, All-around,
}
use storage_bot.Executor.{SshNode}
use storage_bot.Inspect.Level.{Finding}
use storage_bot.Inspect.Inspectors.{Inspector, node_scope, cluster_scope, by_scope}
use storage_bot.Inspect.Runner.{
  Setting, Worker, Phase, Step, enter, call, leave, Run, here, next, inspected, begin, node_context,
  located, or_none, cluster_findings,
}

-- A node with what its goroutine has added.
abbrev pub Block : Type 0
Block = SshNode × List Finding

unfoldable pub all_of : List Block → List Finding
all_of [] = []
all_of ((n, fs) ∷ bs) = fs ++ all_of bs

all_of-append :
    (bs : List Block) (n : SshNode) (fs : List Finding)
    → all_of (bs ++ (n, fs) ∷ []) ≡ all_of bs ++ fs
unfolding all_of
all_of-append [] n fs = append-nil fs
all_of-append ((m, gs) ∷ bs) n fs =
    ap (λ l. gs ++ l) (all_of-append bs n fs) ∙ sym (append_assoc gs (all_of bs) fs)

length-around :
    {A : Type 0} (before after : List A) (a : A)
    → length (before ++ a ∷ after) ≡ suc (length (before ++ after))
length-around before after a =
    omega (arith, length-append before (a ∷ after), length-append before after)

-- A node that gets its place, or that gives it back, is counted as before.
entered :
    (bs rs before after : List SshNode) (n : SshNode)
    → Perm (bs ++ ((rs ++ n ∷ []) ++ (before ++ after))) (bs ++ (rs ++ (before ++ n ∷ after)))
entered bs rs before after n = Perm.append_left bs (
    rw (append_assoc rs (n ∷ []) (before ++ after))
      (Perm.append_left rs (Perm.symm (perm_middle before after))))

left :
    (bs before after ws : List SshNode) (n : SshNode)
    → Perm ((bs ++ n ∷ []) ++ ((before ++ after) ++ ws)) (bs ++ ((before ++ n ∷ after) ++ ws))
left bs before after ws n =
    rw (append_assoc bs (n ∷ []) ((before ++ after) ++ ws))
      (Perm.append_left bs (Perm.append_right ws (Perm.symm (perm_middle before after))))

module _ {W F : Type 0} (st : Setting W F) where
  -- The findings of these inspectors on a node, one after the other, each called on some world.
  unfoldable pub Inspected : SshNode → List (Inspector W F) → List Finding → Type 0
  Inspected n [] fs = fs ≡ []
  Inspected n (i ∷ is) fs =
      (w : W) × (rest : List Finding) × (fs
        ≡ map (located st n) (or_none (i.inspect (node_context st n) w).0) ++ rest)
      × Inspected n is rest

  Inspected-more :
      (n : SshNode) (done : List (Inspector W F)) (i : Inspector W F) (fs : List Finding) (w : W)
      → Inspected n done fs
      → Inspected n
          (done ++ i ∷ [])
          (fs ++ map (located st n) (or_none (i.inspect (node_context st n) w).0))
  unfolding Inspected
  Inspected-more n [] i fs w h =
      let new = map (located st n) (or_none (i.inspect (node_context st n) w).0) in
      (w, [], ap (λ l. l ++ new) h ∙ sym (append-nil new), refl)
  Inspected-more n (j ∷ done) i fs w (v, rest, e, h) =
      let new = map (located st n) (or_none (i.inspect (node_context st n) w).0) in
      (
        v,
        rest ++ new,
        ap (λ l. l ++ new) e ∙ append_assoc _ rest new,
        Inspected-more n done i rest w h,
      )

names-around :
    {W F : Type 0} (before after : List (Worker W F)) (k : Worker W F)
    → map (λ l. l.node) (before ++ k ∷ after)
      ≡ map (λ l. l.node) before ++ k.node ∷ map (λ l. l.node) after
names-around before after k = map-append (λ l. l.node) before (k ∷ after)

module _ {W F : Type 0} (st : Setting W F) (is : List (Inspector W F)) (cap : ℕ)
    (nodes : List SshNode) (first : List Finding) where
  -- A goroutine that has got through some of its inspectors.
  Begun : Worker W F → Type 0
  Begun k = (done : List (Inspector W F)) × (done ++ k.todo ≡ is) × Inspected st k.node done k.found

  record Accounted (s : Phase W F) (blocks : List Block) : Type 0 where
    theirs : Perm (map (λ b. b.0) blocks ++ (map (λ k. k.node) s.running ++ s.waiting)) nodes
    added : s.findings ≡ first ++ all_of blocks
    whole : All (λ b. Inspected st b.0 is b.1) blocks
    begun : All Begun s.running
    room : length s.running ≤ cap

  enter-Accounted :
      (s u : Phase W F) (bs : List Block) (before after : List SshNode) (n : SshNode)
      → s.waiting ≡ before ++ n ∷ after
      → length s.running < cap
      → u ≡ record {
        waiting = before ++ after;
        running = s.running ++ record { node = n; todo = is; found = [] } ∷ [];
        findings = s.findings;
        world = s.world;
      }
      → Accounted s bs
      → Accounted u bs
  unfolding Begun Inspected
  enter-Accounted s u bs before after n e room h a =
      let k : Worker W F = record { node = n; todo = is; found = [] } in
      let v : Phase W F = record {
        waiting = before ++ after;
        running = s.running ++ k ∷ [];
        findings = s.findings;
        world = s.world;
      } in
      let same : Perm (map (λ b. b.0) bs ++ (map (λ k. k.node) s.running ++ (before ++ n ∷ after)))
          nodes =
        subst (λ l. Perm (map (λ b. b.0) bs ++ (map (λ k. k.node) s.running ++ l)) nodes) e
          a.theirs in
      let r : Accounted v bs = record {
        theirs =
            subst (λ l. Perm (map (λ b. b.0) bs ++ (l ++ (before ++ after))) nodes)
              (sym (map-append (λ k. k.node) s.running (k ∷ [])))
              (Perm.trans (entered (map (λ b. b.0) bs) (map (λ k. k.node) s.running) before after n)
                same);
        added = a.added;
        whole = a.whole;
        begun = All-append Begun s.running (k ∷ []) a.begun (([], refl, refl), tt);
        room = omega (arith, length-append s.running (k ∷ []));
      } in
      subst (λ p. Accounted p bs) (sym h) r

  call-Begun :
      (k : Worker W F) (i : Inspector W F) (rest : List (Inspector W F)) (w : W)
      → k.todo ≡ i ∷ rest
      → Begun k
      → Begun (inspected st k i rest w).0
  unfolding Begun inspected
  call-Begun k i rest w t (done, e, h) = (
    done ++ i ∷ [],
    append_assoc done (i ∷ []) rest ∙ (ap (λ l. done ++ l) (sym t) ∙ e),
    Inspected-more st k.node done i k.found w h,
  )

  call-Accounted :
      (s : Phase W F) (bs : List Block) (before after : List (Worker W F)) (k : Worker W F)
      (i : Inspector W F) (rest : List (Inspector W F))
      → s.running ≡ before ++ k ∷ after
      → k.todo ≡ i ∷ rest
      → Accounted s bs
      → Accounted
          (record {
            waiting = s.waiting;
            running = before ++ (inspected st k i rest s.world).0 ∷ after;
            findings = s.findings;
            world = (inspected st k i rest s.world).1;
          })
          bs
  unfolding inspected
  call-Accounted s bs before after k i rest e t a =
      let k' : Worker W F = (inspected st k i rest s.world).0 in
      let (b, others) = (All-around Begun before after k).0 (subst (All Begun) e a.begun) in
      record {
        theirs =
            subst (λ l. Perm (map (λ b. b.0) bs ++ (l ++ s.waiting)) nodes)
              (names-around before after k ∙ sym (names-around before after k'))
              (subst (λ l. Perm (map (λ b. b.0) bs ++ (map (λ k. k.node) l ++ s.waiting)) nodes) e
                a.theirs);
        added = a.added;
        whole = a.whole;
        begun = (All-around Begun before after k').1 (call-Begun k i rest s.world t b, others);
        room =
            let old : length (before ++ k ∷ after) ≤ cap = subst (λ l. length l ≤ cap) e a.room in
            omega (arith, length-around before after k, length-around before after k');
      }

  ended : (k : Worker W F) → k.todo ≡ [] → Begun k → Inspected st k.node is k.found
  unfolding Begun
  ended k t (done, e, h) =
      subst (λ l. Inspected st k.node l k.found)
        (sym (append-nil done) ∙ (ap (λ l. done ++ l) (sym t) ∙ e)) h

  leave-Accounted :
      (s : Phase W F) (bs : List Block) (before after : List (Worker W F)) (k : Worker W F)
      → s.running ≡ before ++ k ∷ after
      → k.todo ≡ []
      → Accounted s bs
      → Accounted
          (record {
            waiting = s.waiting;
            running = before ++ after;
            findings = s.findings ++ k.found;
            world = s.world;
          })
          (bs ++ (k.node, k.found) ∷ [])
  unfolding Begun
  leave-Accounted s bs before after k e t a =
      let (b, others) = (All-around Begun before after k).0 (subst (All Begun) e a.begun) in
      record {
        theirs =
            rw
              (
                map-append (λ b. b.0) bs ((k.node, k.found) ∷ []),
                map-append (λ l. l.node) before after,
              )
              (Perm.trans
                (left (map (λ b. b.0) bs) (map (λ l. l.node) before) (map (λ l. l.node) after)
                  s.waiting k.node)
                (subst (λ l. Perm (map (λ b. b.0) bs ++ (l ++ s.waiting)) nodes)
                  (names-around before after k)
                  (subst (λ l. Perm (map (λ b. b.0) bs ++ (map (λ k. k.node) l ++ s.waiting)) nodes)
                    e a.theirs)));
        added =
            ap (λ l. l ++ k.found) a.added
            ∙ (append_assoc first (all_of bs) k.found
                ∙ ap (λ l. first ++ l) (sym (all_of-append bs k.node k.found)));
        whole = All-append _ bs ((k.node, k.found) ∷ []) a.whole (ended k t b, tt);
        begun = others;
        room =
            let old : length (before ++ k ∷ after) ≤ cap = subst (λ l. length l ≤ cap) e a.room in
            omega (arith, length-around before after k);
      }

  step-Accounted :
      {s u : Phase W F}
      → Step st is cap s u
      → (bs : List Block) × Accounted s bs
      → (bs : List Block) × Accounted u bs
  step-Accounted {s} {u} (enter before after n e room h) (bs, a) =
      (bs, enter-Accounted s u bs before after n e room h a)
  step-Accounted {s} {u} (call before after k i rest e t h) (bs, a) =
      (bs, subst (λ p. Accounted p bs) (sym h) (call-Accounted s bs before after k i rest e t a))
  step-Accounted {s} {u} (leave before after k e t h) (bs, a) = (
    bs ++ (k.node, k.found) ∷ [],
    subst (λ p. Accounted p (bs ++ (k.node, k.found) ∷ [])) (sym h)
        (leave-Accounted s bs before after k e t a),
  )

  run-Accounted :
      {s u : Phase W F} {n : ℕ}
      → Run st is cap s n u
      → (bs : List Block) × Accounted s bs
      → (bs : List Block) × Accounted u bs
  run-Accounted here a = a
  run-Accounted (next r p) a = step-Accounted p (run-Accounted r a)

-- At every moment of every run, the findings are the cluster's, followed by one block for each node
-- that is through: the findings of all its inspectors in their order. These nodes, those with a
-- place and those that wait are the given ones, and no more than `cap` have a place.
pub nodes_phase-Inspected :
    {W F : Type 0} (st : Setting W F) (cap : ℕ) (registry : List (Inspector W F))
    (nodes : List SshNode) (w : W) {n : ℕ} {u : Phase W F}
    → Run st (by_scope node_scope registry) cap (begin st registry nodes w) n u
    → (bs : List Block) × Perm
        (map (λ b. b.0) bs ++ (map (λ k. k.node) u.running ++ u.waiting))
        nodes
      × (u.findings ≡ (cluster_findings st (by_scope cluster_scope registry) w).0 ++ all_of bs)
      × All (λ b. Inspected st b.0 (by_scope node_scope registry) b.1) bs
      × (length u.running ≤ cap)
unfolding begin all_of
nodes_phase-Inspected st cap registry nodes w r =
    let is = by_scope node_scope registry in
    let first = (cluster_findings st (by_scope cluster_scope registry) w).0 in
    let start : Accounted st is cap nodes first (begin st registry nodes w) [] = record {
      theirs = Perm.rfl;
      added = sym (append-nil first);
      whole = tt;
      begun = tt;
      room = omega arith;
    } in
    let (bs, a) = run-Accounted st is cap nodes first r ([], start) in
    (bs, a.theirs, a.added, a.whole, a.room)
