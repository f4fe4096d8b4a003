-- ===== src/Skill/Nic/Safe.antt =====
-- What a call for a bond's port does to the node, and when.
use storage_bot.Base.{
  ◌≡◌, refl, sym, ap, ◌∙◌, inl, inr, true, List, [], ◌∷◌, arith, Text, lit, text_eq, text_eq_iff,
  if◌then◌else◌, Option, none, some, trim_space, equal_fold, Bool-cases, In, All, subst,
}
use storage_bot.Base.Result.{Result, err, ok}
use storage_bot.Regex.{match_string}
use storage_bot.Executor.{Wire}
use storage_bot.Skill.Context.{SshTarget, Context, arg, node_of, run_on_node, resolve_nodes}
use storage_bot.Skill.Bonds.{
  BondSlave, BondInfo, parse_bonds, has_slave, first_bond, find_bond_for_slave,
}
use storage_bot.Skill.Nic.{
  Verb, eth_name_re, down_verb, probe_cmd, link_cmd, not_up, one_node, resolved, target_node,
  named_port, set_link, confirm, blocking, check_ports, check_bond, check_probe, with_port,
  with_node, nic_execute, nic_down,
}

-- A port of the bond with this name.
abbrev pub HasPort : Text → BondInfo → Type 0
HasPort eth b = (sl : BondSlave) × In sl b.slaves × (sl.name ≡ eth)

-- Each port of the bond is up.
abbrev pub AllUp : BondInfo → Type 0
AllUp b = All (λ sl. equal_fold sl.mii_status (lit "up") ≡ true) b.slaves

has_slave-In :
    (eth : Text) (sls : List BondSlave)
    → has_slave eth sls ≡ true
    → (sl : BondSlave) × In sl sls × (sl.name ≡ eth)
unfolding has_slave
has_slave-In eth [] h = cc
has_slave-In eth (sl ∷ sls) h = elim (Bool-cases (text_eq sl.name eth)) [
  | inl e ↦ (sl, inl refl, (text_eq_iff sl.name eth).0 e)
  | inr e ↦ let (x, m, k) = has_slave-In eth sls (ground arith) in (x, inr m, k)
]

first_bond-In :
    (eth : Text) (bs : List BondInfo) (b : BondInfo)
    → first_bond eth bs ≡ some b
    → In b bs × HasPort eth b
unfolding first_bond
first_bond-In eth [] b h = cc
first_bond-In eth (c ∷ bs) b h = elim (Bool-cases (has_slave eth c.slaves)) [
  | inl e ↦
      let same : c ≡ b = ground arith in
      (inl (sym same), subst (HasPort eth) same (has_slave-In eth c.slaves e))
  | inr e ↦ let (m, k) = first_bond-In eth bs b (ground arith) in (inr m, k)
]

not_up-AllUp :
    (sls : List BondSlave)
    → not_up sls ≡ []
    → All (λ sl. equal_fold sl.mii_status (lit "up") ≡ true) sls
not_up-AllUp [] h = tt
not_up-AllUp (sl ∷ sls) h = elim (Bool-cases (equal_fold sl.mii_status (lit "up"))) [
  | inl e ↦ (e, not_up-AllUp sls (ground arith))
  | inr e ↦ absurd (ground arith)
]

module _ {W : Type 0} (wire : Wire W) (quote : Text → Text) (verb : Verb) where
  -- What a call has done to the world: nothing; the probe of the bonds on the one node that it names;
  -- or the probe and then the change of the port. The change is made only with the confirmation, on a
  -- port with a plain name that one of the probed bonds has, and, where the verb asks for it, only if
  -- each port of that bond is up.
  pub data Deed (sc : Context) (w : W) (r : Text × W) : Type 0 where
    untouched : r.1 ≡ w → Deed sc w r
    probed :
        (node : SshTarget)
        → resolve_nodes quote sc.nodes sc.node_name ≡ ok (node ∷ [])
        → r.1 ≡ (run_on_node wire sc (node_of node) probe_cmd w).1
        → Deed sc w r
    changed :
        (node : SshTarget) (eth probe : Text) (b : BondInfo) (w1 : W)
        → resolve_nodes quote sc.nodes sc.node_name ≡ ok (node ∷ [])
        → match_string eth_name_re eth ≡ true
        → run_on_node wire sc (node_of node) probe_cmd w ≡ (ok probe, w1)
        → In b (parse_bonds probe) × HasPort eth b
        → (verb.all_up ≡ true → AllUp b)
        → arg sc.args (lit "yes") ≡ lit "true"
        → r.1 ≡ (run_on_node wire sc (node_of node) (link_cmd verb.word eth) w1).1
        → Deed sc w r

  -- What is known behind the probe.
  record Probed (sc : Context) (w : W) (node : SshTarget) (eth probe : Text) (w1 : W) : Type 0 where
    only : resolve_nodes quote sc.nodes sc.node_name ≡ ok (node ∷ [])
    plain : match_string eth_name_re eth ≡ true
    ran : run_on_node wire sc (node_of node) probe_cmd w ≡ (ok probe, w1)

  confirm-Deed :
      (sc : Context) (w : W) (node : SshTarget) (eth probe : Text) (w1 : W) (b : BondInfo)
      → Probed sc w node eth probe w1
      → In b (parse_bonds probe) × HasPort eth b
      → (verb.all_up ≡ true → AllUp b)
      → Deed sc w (confirm wire quote verb sc node eth b w1)
  unfolding confirm set_link
  confirm-Deed sc w node eth probe w1 b p m u =
      elim (Bool-cases (text_eq (arg sc.args (lit "yes")) (lit "true"))) [
        | inl yes_given ↦ rw yes_given (
            changed node eth probe b w1 p.only p.plain p.ran m u
              ((text_eq_iff (arg sc.args (lit "yes")) (lit "true")).0 yes_given) refl)
        | inr missing ↦ rw missing (probed node p.only (ap (λ x. x.1) (sym p.ran)))
      ]

  check_ports-Deed :
      (sc : Context) (w : W) (node : SshTarget) (eth probe : Text) (w1 : W) (b : BondInfo)
      (sls : List BondSlave)
      → Probed sc w node eth probe w1
      → In b (parse_bonds probe) × HasPort eth b
      → (sls ≡ [] → verb.all_up ≡ true → AllUp b)
      → Deed sc w (check_ports wire quote verb sc node eth b sls w1)
  unfolding check_ports
  check_ports-Deed sc w node eth probe w1 b [] p m u =
      confirm-Deed sc w node eth probe w1 b p m (u refl)
  check_ports-Deed sc w node eth probe w1 b (sl ∷ sls) p m u =
      probed node p.only (ap (λ x. x.1) (sym p.ran))

  blocking-AllUp : (b : BondInfo) → blocking wire quote verb b ≡ [] → verb.all_up ≡ true → AllUp b
  unfolding blocking
  blocking-AllUp b e a =
      not_up-AllUp b.slaves (ap (λ x. if x then not_up b.slaves else []) (sym a) ∙ e)

  check_bond-Deed :
      (sc : Context) (w : W) (node : SshTarget) (eth probe : Text) (w1 : W) (o : Option BondInfo)
      → Probed sc w node eth probe w1
      → find_bond_for_slave probe eth ≡ o
      → Deed sc w (check_bond wire quote verb sc node eth probe o w1)
  unfolding check_bond find_bond_for_slave
  check_bond-Deed sc w node eth probe w1 none p e = probed node p.only (ap (λ x. x.1) (sym p.ran))
  check_bond-Deed sc w node eth probe w1 (some b) p e =
      check_ports-Deed sc w node eth probe w1 b (blocking wire quote verb b) p
        (first_bond-In eth (parse_bonds probe) b e) (blocking-AllUp b)

  check_probe-Deed :
      (sc : Context) (w : W) (node : SshTarget) (eth : Text) (o : Result Text × W)
      → resolve_nodes quote sc.nodes sc.node_name ≡ ok (node ∷ [])
      → match_string eth_name_re eth ≡ true
      → run_on_node wire sc (node_of node) probe_cmd w ≡ o
      → Deed sc w (check_probe wire quote verb sc node eth o)
  unfolding check_probe
  check_probe-Deed sc w node eth (err e, w1) one m r = probed node one (ap (λ x. x.1) (sym r))
  check_probe-Deed sc w node eth (ok probe, w1) one m r =
      check_bond-Deed sc w node eth probe w1 (find_bond_for_slave probe eth)
        (record { only = one; plain = m; ran = r }) refl

  with_port-Deed :
      (sc : Context) (w : W) (node : SshTarget) (t : Text)
      → resolve_nodes quote sc.nodes sc.node_name ≡ ok (node ∷ [])
      → Deed sc w (with_port wire quote verb sc node (named_port wire quote verb sc node t) w)
  unfolding with_port named_port
  with_port-Deed sc w node [] one = untouched refl
  with_port-Deed sc w node (c ∷ t) one = elim (Bool-cases (match_string eth_name_re (c ∷ t))) [
    | inl m ↦ rw m (
        check_probe-Deed sc w node (c ∷ t) (run_on_node wire sc (node_of node) probe_cmd w) one m
          refl)
    | inr m ↦ rw m (untouched refl)
  ]

  resolved-one :
      (o : Result (List SshTarget)) (node : SshTarget)
      → resolved wire quote verb o ≡ ok node
      → o ≡ ok (node ∷ [])
  unfolding resolved one_node
  resolved-one (err e) node h = cc
  resolved-one (ok []) node h = cc
  resolved-one (ok (t ∷ [])) node h = cc
  resolved-one (ok (t ∷ u ∷ ts)) node h = cc

  target_node-one :
      (sc : Context) (node : SshTarget)
      → target_node wire quote verb sc ≡ ok node
      → resolve_nodes quote sc.nodes sc.node_name ≡ ok (node ∷ [])
  unfolding target_node
  target_node-one sc node h = go (trim_space sc.node_name) h
    where
      go :
          (t : Text)
          → (elim t as (λ _. Result SshTarget) [
            | [] ↦ err verb.no_node
            | c ∷ s ↦ resolved wire quote verb (resolve_nodes quote sc.nodes sc.node_name)
          ])
            ≡ ok node
          → resolve_nodes quote sc.nodes sc.node_name ≡ ok (node ∷ [])
      go [] k = cc
      go (c ∷ s) k = resolved-one (resolve_nodes quote sc.nodes sc.node_name) node k

  with_node-Deed :
      (sc : Context) (w : W) (o : Result SshTarget)
      → target_node wire quote verb sc ≡ o
      → Deed sc w (with_node wire quote verb sc o w)
  unfolding with_node
  with_node-Deed sc w (err e) h = untouched refl
  with_node-Deed sc w (ok node) h =
      with_port-Deed sc w node (trim_space (arg sc.args (lit "eth"))) (target_node-one sc node h)

  pub nic_execute-Deed : (sc : Context) (w : W) → Deed sc w (nic_execute wire quote verb sc w)
  unfolding nic_execute
  nic_execute-Deed sc w = with_node-Deed sc w (target_node wire quote verb sc) refl

-- A call of nic_down leaves the nodes alone, or probes the bonds of the one node that it names, or
-- probes them and sets one port down. It sets a port down only with the parameter `yes`, only a port
-- with a plain name that one of the probed bonds has, and only if each port of that bond is up.
pub nic_down-Deed :
    {W : Type 0} (wire : Wire W) (quote : Text → Text) (sc : Context) (w : W)
    → Deed wire quote down_verb sc w (nic_down wire quote sc w)
unfolding nic_down
nic_down-Deed wire quote sc w = nic_execute-Deed wire quote down_verb sc w
