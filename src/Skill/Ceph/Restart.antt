-- ===== src/Skill/Ceph/Restart.antt =====
-- When a daemon's pod is deleted.
use storage_bot.Base.{
  ◌≡◌, ◌≢◌, ◌⊎◌, refl, sym, ap, ◌∙◌, inl, inr, true, not, List, [], ◌∷◌, Text, lit, text_eq,
  text_eq_iff, if◌then◌else◌, Option, none, some, trim_space, In, Bool-cases, subst,
}
use storage_bot.Base.Result.{Result, err, ok}
use storage_bot.Executor.{CephPod, Wire}
use storage_bot.Skill.Context.{Context, arg}
use storage_bot.Skill.Ceph.{
  no_kube, pod_of, restart_pod, restart_id, restart_listed, restart_ceph_daemon,
}

-- A pod of the list that has the id.
abbrev pub IsPod : Text → List CephPod → CephPod → Type 0
IsPod id pods p = In p pods × (p.daemon_id ≡ id)

module _ {W : Type 0} (wire : Wire W) where
  pod_of-IsPod :
      (id : Text) (t : Option CephPod) (ps : List CephPod) (p : CephPod)
      → pod_of wire id t ps ≡ some p
      → (t ≡ some p) ⊎ IsPod id ps p
  unfolding pod_of
  pod_of-IsPod id t [] p h = inl h
  pod_of-IsPod id t (q ∷ ps) p h =
      elim (pod_of-IsPod id (if text_eq q.daemon_id id then some q else t) ps p h) [
        | inl e ↦ elim (Bool-cases (text_eq q.daemon_id id)) [
          | inl k ↦
              let same : some q ≡ some p = ap (λ b. if b then some q else t) (sym k) ∙ e in
              inr (
                inl (cc),
                (ap (λ x. x.daemon_id) (some_inj p q (sym same)))
                    ∙ (text_eq_iff q.daemon_id id).0 k,
              )
          | inr k ↦ inl (ap (λ b. if b then some q else t) (sym k) ∙ e)
        ]
        | inr (m, k) ↦ inr (inr m, k)
      ]
    where
      some_inj : (a b : CephPod) → some a ≡ some b → a ≡ b
      some_inj a b e = cc

  -- What a restart has done to the world behind the listing: nothing, or the deletion of one pod. The
  -- deletion is made only with the confirmation, of a listed pod that has the id that was given.
  pub data Deed (sc : Context) (pods : List CephPod) (w : W) (r : Result Text × W) : Type 0 where
    untouched : r.1 ≡ w → Deed sc pods w r
    deleted :
        (p : CephPod)
        → IsPod (trim_space (arg sc.args (lit "id"))) pods p
        → trim_space (arg sc.args (lit "id")) ≢ []
        → arg sc.args (lit "yes") ≡ lit "true"
        → r.1 ≡ (wire.delete_pod w p.name).1
        → Deed sc pods w r

  restart_pod-Deed :
      (sc : Context) (daemon : Text) (pods : List CephPod) (o : Option CephPod) (w : W)
      → trim_space (arg sc.args (lit "id")) ≢ []
      → ((p : CephPod) → o ≡ some p → IsPod (trim_space (arg sc.args (lit "id"))) pods p)
      → (id : Text) → Deed sc pods w (restart_pod wire sc daemon id pods o w)
  unfolding restart_pod
  restart_pod-Deed sc daemon pods none w n h id = untouched refl
  restart_pod-Deed sc daemon pods (some p) w n h id =
      elim (Bool-cases (text_eq (arg sc.args (lit "yes")) (lit "true"))) [
        | inl y ↦
            rw y (
              deleted p (h p refl) n ((text_eq_iff (arg sc.args (lit "yes")) (lit "true")).0 y)
                refl)
        | inr y ↦ rw y (untouched refl)
      ]

  restart_id-Deed :
      (sc : Context) (daemon : Text) (pods : List CephPod) (id : Text) (w : W)
      → trim_space (arg sc.args (lit "id")) ≡ id
      → Deed sc pods w (restart_id wire sc daemon pods id w)
  unfolding restart_id
  restart_id-Deed sc daemon pods [] w e = untouched refl
  restart_id-Deed sc daemon pods (c ∷ id) w e =
      restart_pod-Deed sc daemon pods (pod_of wire (c ∷ id) none pods) w (λ k. given (sym e ∙ k))
        (λ p k. rw e (picked p (pod_of-IsPod (c ∷ id) none pods p k))) (c ∷ id)
    where
      given : c ∷ id ≢ []
      given k = cc

      picked : (p : CephPod) → (none ≡ some p) ⊎ IsPod (c ∷ id) pods p → IsPod (c ∷ id) pods p
      picked p (inl k) = absurd (differ k)
        where
          differ : none ≢ some p
          differ q = cc
      picked p (inr m) = m

  -- Where the listing of the daemon's pods gives `pods` and leaves the world `w1`, a restart leaves
  -- that world alone or deletes one pod: the latter only with the parameter `yes`, and only a listed
  -- pod whose id is the one given, which is not blank.
  pub restart_ceph_daemon-Deed :
      (sc : Context) (daemon : Text) (w w1 : W) (pods : List CephPod)
      → sc.has_kube ≡ true
      → wire.list_pods w daemon ≡ (ok pods, w1)
      → Deed sc pods w1 (restart_ceph_daemon wire sc daemon w)
  unfolding restart_ceph_daemon
  restart_ceph_daemon-Deed sc daemon w w1 pods k e =
      subst (Deed sc pods w1)
        (sym (
          ap
            (λ b.
              if not b
              then (err (no_kube), w)
              else restart_listed wire sc daemon (wire.list_pods w daemon))
            k
          ∙ ap (restart_listed wire sc daemon) e))
        (listed pods)
    where
      listed : (ps : List CephPod) → Deed sc ps w1 (restart_listed wire sc daemon (ok ps, w1))
      listed [] = unfold restart_listed in untouched refl
      listed (p ∷ ps) =
          unfold restart_listed in
          restart_id-Deed sc daemon (p ∷ ps) (trim_space (arg sc.args (lit "id"))) w1 refl
