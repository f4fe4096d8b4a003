-- ===== src/Cluster/Nodes/Cache.antt =====
-- The cache of the nodes, alone and beside a reload of the configuration.
use storage_bot.Base.{
  ◌≡◌, refl, sym, ap, ◌∙◌, subst, inl, inr, List, [], ◌∷◌, arith, Text, text_eq, text_eq_refl,
  Option, none, some, Bool-cases,
}
use storage_bot.Base.Result.{Result, err, ok}
use storage_bot.Executor.{SshNode}
use storage_bot.Cluster.{get}
use storage_bot.Cluster.Nodes.{
  ClusterConfig, Kube, Manager, put, reload, discover_nodes, cache_nodes, resolve_missing,
  resolve_found, resolve_listed, resolve_ssh_nodes,
}

pub get-put :
    {V : Type 0} (m : List (Text × V)) (key : Text) (v : V) → get (put m key v) key ≡ some v
unfolding get put
get-put [] key v = rw (text_eq_refl key) refl
get-put ((k, u) ∷ m) key v = elim (Bool-cases (text_eq k key)) [
  | inl e ↦ rw (e, e) refl
  | inr e ↦ rw (e, e) (get-put m key v)
]

module _ {W K : Type 0} (kube : Kube W K) where
  resolve_ssh_nodes-step :
      (name : Text) (cfg : ClusterConfig) (gateway : SshNode) (m : Manager K) (w : W)
      → cfg.ssh_nodes ≡ []
      → cfg.gateway_node ≡ some gateway
      → resolve_ssh_nodes kube name cfg m w
        ≡ resolve_missing kube name gateway cfg (get m.node_cache name) m w
  unfolding resolve_ssh_nodes resolve_listed resolve_found
  resolve_ssh_nodes-step name cfg gateway m w h g =
      ap (λ l. resolve_listed kube name cfg l m w) h ∙ ap (λ o. resolve_found kube name cfg o m w) g

  -- A cached entry answers the call, and nothing else happens.
  cached-answers :
      (name : Text) (cfg : ClusterConfig) (gateway : SshNode) (m : Manager K) (w : W)
      (ns : List SshNode)
      → cfg.ssh_nodes ≡ []
      → cfg.gateway_node ≡ some gateway
      → get m.node_cache name ≡ some ns
      → resolve_ssh_nodes kube name cfg m w ≡ (ok ns, m, w)
  unfolding resolve_missing
  cached-answers name cfg gateway m w ns h g c =
      resolve_ssh_nodes-step name cfg gateway m w h g
      ∙ ap (λ o. resolve_missing kube name gateway cfg o m w) c

  missing-caches :
      (name : Text) (cfg : ClusterConfig) (gateway : SshNode) (m : Manager K) (w : W)
      (ns : List SshNode) (o : Option (List SshNode))
      → get m.node_cache name ≡ o
      → (resolve_missing kube name gateway cfg o m w).0 ≡ ok ns
      → get (resolve_missing kube name gateway cfg o m w).1.node_cache name ≡ some ns
  unfolding resolve_missing cache_nodes
  missing-caches name cfg gateway m w ns (some x) c h = c ∙ ap some (ground arith)
  missing-caches name cfg gateway m w ns none c h = go (discover_nodes kube gateway cfg w).0 h
    where
      go :
          (r : Result (List SshNode))
          → r ≡ ok ns
          → get (cache_nodes kube name r m).node_cache name ≡ some ns
      go (err e) k = absurd (ground arith)
      go (ok xs) k = let same : xs ≡ ns = ground arith in rw same (get-put m.node_cache name ns)

  resolve-caches :
      (name : Text) (cfg : ClusterConfig) (gateway : SshNode) (m : Manager K) (w : W)
      (ns : List SshNode)
      → cfg.ssh_nodes ≡ []
      → cfg.gateway_node ≡ some gateway
      → (resolve_ssh_nodes kube name cfg m w).0 ≡ ok ns
      → get (resolve_ssh_nodes kube name cfg m w).1.node_cache name ≡ some ns
  resolve-caches name cfg gateway m w ns h g =
      subst (λ r. r.0 ≡ ok ns → get r.1.node_cache name ≡ some ns)
        (sym (resolve_ssh_nodes-step name cfg gateway m w h g))
        (missing-caches name cfg gateway m w ns (get m.node_cache name) refl)

  -- The nodes of a cluster whose configuration names a gateway and no nodes: a call that succeeds is
  -- answered from the cache from then on. A second call, with any such configuration, gives the same
  -- nodes, and changes neither the manager nor the world.
  pub resolve_ssh_nodes_again :
      (name : Text) (cfg cfg' : ClusterConfig) (gateway gateway' : SshNode) (m : Manager K) (w : W)
      (ns : List SshNode)
      → cfg.ssh_nodes ≡ []
      → cfg.gateway_node ≡ some gateway
      → cfg'.ssh_nodes ≡ []
      → cfg'.gateway_node ≡ some gateway'
      → (resolve_ssh_nodes kube name cfg m w).0 ≡ ok ns
      → (w' : W)
      → resolve_ssh_nodes kube name cfg' (resolve_ssh_nodes kube name cfg m w).1 w'
        ≡ (ok ns, (resolve_ssh_nodes kube name cfg m w).1, w')
  resolve_ssh_nodes_again name cfg cfg' gateway gateway' m w ns h g h' g' r w' =
      cached-answers name cfg' gateway' (resolve_ssh_nodes kube name cfg m w).1 w' ns h' g'
        (resolve-caches name cfg gateway m w ns h g r)

  -- The call in two steps, with a reload between them: the discovery runs with the old configuration,
  -- and its result is written into the cache that the reload has just emptied. If the discovery
  -- succeeds, a later call with the new configuration gives the old nodes, without a discovery.
  pub reload_keeps_old_nodes :
      (name : Text) (cfg cfg' : ClusterConfig) (gateway gateway' : SshNode) (m : Manager K)
      (w w1 w' : W) (ns : List SshNode) (clusters : List (Text × ClusterConfig))
      → discover_nodes kube gateway cfg w ≡ (ok ns, w1)
      → cfg'.ssh_nodes ≡ []
      → cfg'.gateway_node ≡ some gateway'
      → resolve_ssh_nodes kube name cfg'
          (cache_nodes kube name (discover_nodes kube gateway cfg w).0 (reload clusters m))
          w'
        ≡ (ok ns, cache_nodes kube name (ok ns) (reload clusters m), w')
  unfolding cache_nodes
  reload_keeps_old_nodes name cfg cfg' gateway gateway' m w w1 w' ns clusters d h g = rw d (
      cached-answers name cfg' gateway' (cache_nodes kube name (ok ns) (reload clusters m)) w' ns h
        g (get-put (reload clusters m).node_cache name ns))

module _ {W K : Type 0} (kube : Kube W K) where
  cache_nodes-clusters :
      (name : Text) (r : Result (List SshNode)) (m : Manager K)
      → (cache_nodes kube name r m).clusters ≡ m.clusters
  unfolding cache_nodes
  cache_nodes-clusters name (err e) m = refl
  cache_nodes-clusters name (ok ns) m = refl

  missing-clusters :
      (name : Text) (gateway : SshNode) (cfg : ClusterConfig) (o : Option (List SshNode))
      (m : Manager K) (w : W)
      → (resolve_missing kube name gateway cfg o m w).1.clusters ≡ m.clusters
  unfolding resolve_missing
  missing-clusters name gateway cfg (some ns) m w = refl
  missing-clusters name gateway cfg none m w =
      cache_nodes-clusters name (discover_nodes kube gateway cfg w).0 m

  found-clusters :
      (name : Text) (cfg : ClusterConfig) (o : Option SshNode) (m : Manager K) (w : W)
      → (resolve_found kube name cfg o m w).1.clusters ≡ m.clusters
  unfolding resolve_found
  found-clusters name cfg none m w = refl
  found-clusters name cfg (some gateway) m w =
      missing-clusters name gateway cfg (get m.node_cache name) m w

  listed-clusters :
      (name : Text) (cfg : ClusterConfig) (ns : List SshNode) (m : Manager K) (w : W)
      → (resolve_listed kube name cfg ns m w).1.clusters ≡ m.clusters
  unfolding resolve_listed
  listed-clusters name cfg [] m w = found-clusters name cfg cfg.gateway_node m w
  listed-clusters name cfg (n ∷ ns) m w = refl

  pub resolve_ssh_nodes-clusters :
      (name : Text) (cfg : ClusterConfig) (m : Manager K) (w : W)
      → (resolve_ssh_nodes kube name cfg m w).1.clusters ≡ m.clusters
  unfolding resolve_ssh_nodes
  resolve_ssh_nodes-clusters name cfg m w = listed-clusters name cfg cfg.ssh_nodes m w
