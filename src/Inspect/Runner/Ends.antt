-- ===== src/Inspect/Runner/Ends.antt =====
-- The goroutines of the nodes: they never block one another, and end after a fixed number of steps.
use storage_bot.Base.{
  ℕ, zero, suc, ◌+◌, ◌*◌, ◌≡◌, ◌≤◌, ◌<◌, ◌↔◌, refl, sym, ap, ◌∙◌, subst, arith, List, [], ◌∷◌, ◌++◌,
  length, length-append,
}
use storage_bot.Executor.{SshNode}
use storage_bot.Inspect.Inspectors.{Inspector, node_scope, by_scope}
use storage_bot.Inspect.Runner.{
  Setting, Worker, Phase, Step, enter, call, leave, Run, here, next, IsDone, inspected, begin,
}

-- The steps that the goroutines with a place still take.
pub calls_left : {W F : Type 0} → List (Worker W F) → ℕ
calls_left [] = 0
calls_left (k ∷ ks) = suc (length k.todo) + calls_left ks

pub steps_left : {W F : Type 0} → ℕ → Phase W F → ℕ
unfolding calls_left
steps_left n s = length s.waiting * (2 + n) + calls_left s.running

paid : (a n c : ℕ) → suc (a * (2 + n) + (c + (suc n + 0))) ≡ suc a * (2 + n) + c
paid a n c = omega arith

length_at :
    {A : Type 0} (before after : List A) (a : A)
    → length (before ++ a ∷ after) ≡ suc (length (before ++ after))
length_at before after a =
    omega (arith, length-append before (a ∷ after), length-append before after)

module _ {W F : Type 0} where
  calls_left-append :
      (ks ls : List (Worker W F)) → calls_left (ks ++ ls) ≡ calls_left ks + calls_left ls
  unfolding calls_left
  calls_left-append [] ls = omega arith
  calls_left-append (k ∷ ks) ls = omega (arith, calls_left-append ks ls)

  -- One goroutine in the list changes.
  calls_left_at :
      (before after : List (Worker W F)) (k : Worker W F)
      → calls_left (before ++ k ∷ after) ≡ suc (length k.todo) + calls_left (before ++ after)
  unfolding calls_left
  calls_left_at before after k =
      omega (arith, calls_left-append before (k ∷ after), calls_left-append before after)

no_waiting : {A : Type 0} (ns : List A) (n : ℕ) → length ns * (2 + n) ≡ 0 → ns ≡ []
no_waiting [] n h = refl
no_waiting (x ∷ ns) n h = absurd (omega arith)

no_calls : {W F : Type 0} (ks : List (Worker W F)) → calls_left ks ≡ 0 → ks ≡ []
unfolding calls_left
no_calls [] h = refl
no_calls (k ∷ ks) h = absurd (omega arith)

none_then :
    {W F : Type 0} (ns : List SshNode) (ks : List (Worker W F)) (n : ℕ)
    → ns ≡ []
    → ks ≡ []
    → length ns * (2 + n) + calls_left ks ≡ 0
unfolding calls_left
none_then ns ks n e f = rw (e, f) (omega arith)

module _ {W F : Type 0} (st : Setting W F) (is : List (Inspector W F)) (cap : ℕ) where
  step_costs :
      (s u : Phase W F)
      → Step st is cap s u
      → suc (steps_left (length is) u) ≡ steps_left (length is) s
  unfolding steps_left calls_left inspected
  step_costs s u (enter before after n e room h) =
      let ew : length u.waiting ≡ length (before ++ after) = ap (λ p. length p.waiting) h in
      let er : calls_left u.running
          ≡ calls_left (s.running ++ record { node = n; todo = is; found = [] } ∷ []) =
        ap (λ p. calls_left p.running) h in
      let sw : length s.waiting ≡ suc (length (before ++ after)) =
        ap length e ∙ length_at before after n in
      rw (ew, er, sw, calls_left-append s.running (record { node = n; todo = is; found = [] } ∷ []))
        (paid (length (before ++ after)) (length is) (calls_left s.running))
  step_costs s u (call before after k i rest e t h) =
      let k' : Worker W F = (inspected st k i rest s.world).0 in
      let ew : length u.waiting ≡ length s.waiting = ap (λ p. length p.waiting) h in
      let er : calls_left u.running ≡ calls_left (before ++ k' ∷ after) =
        ap (λ p. calls_left p.running) h in
      let sr : calls_left s.running ≡ suc (length k.todo) + calls_left (before ++ after) =
        ap calls_left e ∙ calls_left_at before after k in
      let st' : length k.todo ≡ suc (length rest) = ap length t in
      rw (ew, er, sr, st', calls_left_at before after k') (omega arith)
  step_costs s u (leave before after k e t h) =
      let ew : length u.waiting ≡ length s.waiting = ap (λ p. length p.waiting) h in
      let er : calls_left u.running ≡ calls_left (before ++ after) =
        ap (λ p. calls_left p.running) h in
      let sr : calls_left s.running ≡ suc (length k.todo) + calls_left (before ++ after) =
        ap calls_left e ∙ calls_left_at before after k in
      let st' : length k.todo ≡ 0 = ap length t in rw (ew, er, sr, st') (omega arith)

  run_costs :
      {s u : Phase W F} {n : ℕ}
      → Run st is cap s n u
      → n + steps_left (length is) u ≡ steps_left (length is) s
  run_costs here = omega arith
  run_costs {u} {n = suc n} (next {t} r p) = omega (arith, run_costs r, step_costs t u p)

  -- A goroutine with a place takes its next step; without one in place, a waiting one gets in.
  on_turn :
      (s : Phase W F) (k : Worker W F) (ks : List (Worker W F)) (todo : List (Inspector W F))
      → s.running ≡ k ∷ ks
      → k.todo ≡ todo
      → (u : Phase W F) × Step st is cap s u
  on_turn s k ks [] e t = (_, leave [] ks k e t refl)
  on_turn s k ks (i ∷ rest) e t = (_, call [] ks k i rest e t refl)

  steps_on :
      (s : Phase W F) (ks : List (Worker W F)) (ns : List SshNode)
      → 0 < cap
      → s.running ≡ ks
      → s.waiting ≡ ns
      → 0 < steps_left (length is) s
      → (u : Phase W F) × Step st is cap s u
  unfolding steps_left calls_left
  steps_on s (k ∷ ks) ns c e f h = on_turn s k ks k.todo e refl
  steps_on s [] (n ∷ ns) c e f h =
      let room : length s.running < cap = subst (λ l. length l < cap) (sym e) c in
      (_, enter [] ns n f room refl)
  steps_on s [] [] c e f h =
      let none_left : length s.waiting * (2 + length is) + calls_left s.running ≡ 0 =
        rw (e, f) (omega arith) in
      absurd (omega arith)

  nothing_left : (s : Phase W F) → (steps_left (length is) s ≡ 0) ↔ IsDone s
  unfolding steps_left
  nothing_left s = (
    λ h. (no_waiting s.waiting (length is) (omega arith), no_calls s.running (omega arith)),
    λ (e, f). none_then s.waiting s.running (length is) e f,
  )

-- A run that is not over can be continued to its end.
pub can_end :
    {W F : Type 0} (st : Setting W F) (is : List (Inspector W F)) (places : ℕ) (m : ℕ)
    {s t : Phase W F} {n : ℕ}
    → 0 < places
    → Run st is places s n t
    → steps_left (length is) t ≡ m
    → (k : ℕ) × (u : Phase W F) × Run st is places s k u × IsDone u
can_end st is places zero {t} {n} c r e = (n, t, r, (nothing_left st is places t).0 e)
can_end st is places (suc m) {t} c r e =
    let (u, p) = steps_on st is places t t.running t.waiting c refl refl (omega arith) in
    can_end st is places m c (next r p) (omega (arith, step_costs st is places t u p))

-- Whatever the goroutines do first, no run of them takes more steps than the nodes and their
-- inspectors ask for; a run that has taken fewer can go on, and one that has taken as many is over.
pub nodes_phase_ends :
    {W F : Type 0} (st : Setting W F) (cap : ℕ) (registry : List (Inspector W F))
    (nodes : List SshNode) (w : W) {n : ℕ} {u : Phase W F}
    → 0 < cap
    → Run st (by_scope node_scope registry) cap (begin st registry nodes w) n u
    → let all = length nodes * (2 + length (by_scope node_scope registry)) in
      (n ≤ all)
      × ((n < all) ↔ ((t : Phase W F) × Step st (by_scope node_scope registry) cap u t))
      × ((n ≡ all) ↔ IsDone u)
unfolding begin steps_left calls_left
nodes_phase_ends st cap registry nodes w {n} {u} c r =
    let is = by_scope node_scope registry in
    let cost = run_costs st is cap r in
    (
      omega arith,
      (
        λ h. steps_on st is cap u u.running u.waiting c refl refl (omega arith),
        λ (t, p). let k = step_costs st is cap u t p in omega arith,
      ),
      (
        λ h. (nothing_left st is cap u).0 (omega arith),
        λ d. let k = (nothing_left st is cap u).1 d in omega arith,
      ),
    )
