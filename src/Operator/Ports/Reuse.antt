-- ===== src/Operator/Ports/Reuse.antt =====
-- Which ports a table that is rebuilt from the stored rules lets the operator use again.
use k8s_ext_connector.Prelude.{
  Text, none, List, [], ◌∷◌, ◌==◌, eq_iff, ◌≡◌, ◌≢◌, inl, inr, refl, ap, arith, Bool-cases, All,
}
use k8s_ext_connector.Prelude.Dict.{Dict, lookup, insert, lookup-insert}
use k8s_ext_connector.Exec.{ok}
use k8s_ext_connector.Api.{ForwarderRule, ForwarderSpec, Forwarder}
use k8s_ext_connector.Operator.Ports.{
  flow, find_port, gen_relay_port_for_egress, used_by_rules, gen_used_ports_for_egress,
}
use k8s_ext_connector.Operator.Ports.Assign.{
  Distinct, Distinct-insert, gen_relay_port_for_egress-fresh,
}

-- No byte of the text is a colon.
abbrev pub LacksColon : Text → Type 0
LacksColon = All (λ c. c ≢ b':')

flow-LacksColon : (s t : Text) → ¬ LacksColon (flow s t)
flow-LacksColon [] t h = h.0 refl
flow-LacksColon (c ∷ s) t h = flow-LacksColon s t h.1

-- No value of the table holds a colon.
abbrev ValuesLack : Dict Text → Type 0
ValuesLack [] = Unit
ValuesLack ((k, v) ∷ table) = LacksColon v × ValuesLack table

ValuesLack-insert :
    (k v : Text) (table : Dict Text)
    → LacksColon v
    → ValuesLack table
    → ValuesLack (insert k v table)
unfolding insert
ValuesLack-insert k v [] lv h = (lv, tt)
ValuesLack-insert k v ((j, w) ∷ table) lv h = elim (Bool-cases (j == k)) [
  | inl same ↦ rw same (lv, h.1)
  | inr other ↦ rw other (h.0, ValuesLack-insert k v table lv h.1)
]

find_port-none :
    (s t : Text) (table : Dict Text) → ValuesLack table → find_port (flow s t) table ≡ none
unfolding find_port
find_port-none s t [] h = refl
find_port-none s t ((k, v) ∷ table) h = elim (Bool-cases (v == flow s t)) [
  | inl same ↦ absurd (flow-LacksColon s t (rw ((eq_iff v (flow s t)).0 same) at (h.0)))
  | inr other ↦ rw other (find_port-none s t table h.1)
]

abbrev pub TargetsLackColon : List ForwarderRule → Type 0
TargetsLackColon = All (λ rule. LacksColon rule.target_port)

used_by_rules-ValuesLack :
    (rules : List ForwarderRule) (used : Dict Text)
    → TargetsLackColon rules
    → ValuesLack used
    → ValuesLack (used_by_rules rules used)
unfolding used_by_rules
used_by_rules-ValuesLack [] used h u = u
used_by_rules-ValuesLack (rule ∷ rules) used h u =
    used_by_rules-ValuesLack rules _ h.1
      (ValuesLack-insert rule.relay_port rule.target_port used h.0 u)

-- A port stays in the table while the other rules are entered.
used_by_rules-keeps :
    (rules : List ForwarderRule) (used : Dict Text) (port : Text)
    → lookup port used ≢ none
    → lookup port (used_by_rules rules used) ≢ none
unfolding used_by_rules
used_by_rules-keeps [] used port h = h
used_by_rules-keeps (rule ∷ rules) used port h =
    used_by_rules-keeps rules _ port (rw lookup-insert (ground (arith, h)))

-- A port that the table of the rules does not hold is the relay port of none of them.
used_by_rules-All :
    (rules : List ForwarderRule) (used : Dict Text) (port : Text)
    → lookup port (used_by_rules rules used) ≡ none
    → All (λ rule. rule.relay_port ≢ port) rules
unfolding used_by_rules
used_by_rules-All [] used port h = tt
used_by_rules-All (rule ∷ rules) used port h = (
  λ e.
      used_by_rules-keeps rules (insert rule.relay_port rule.target_port used) port
        (rw lookup-insert (ground (arith, eq_iff rule.relay_port port, e))) h,
  used_by_rules-All rules _ port h,
)

-- `genUsedPortsForEgress` enters target ports where `genRelayPortForEgress` looks for
-- `sourceIP:targetPort`. So if no stored target port holds a colon, no flow finds its port again:
-- the port that it gets is the relay port of none of the stored egress rules.
pub gen_used_ports_for_egress_forgets :
    {C : Type 0} (fwd : Forwarder C) (source_ip target_port : Text) {port : Text}
    {after : Dict Text}
    → TargetsLackColon fwd.spec.egress_rules
    → gen_relay_port_for_egress source_ip target_port (gen_used_ports_for_egress fwd)
      ≡ ok (port, after)
    → All (λ rule. rule.relay_port ≢ port) fwd.spec.egress_rules
unfolding gen_used_ports_for_egress
gen_used_ports_for_egress_forgets fwd source_ip target_port h e =
    let new =
      find_port-none source_ip target_port (used_by_rules fwd.spec.egress_rules [])
        (used_by_rules-ValuesLack fwd.spec.egress_rules [] h tt) in
    let (_, _, _, _, unused, _, _) =
      gen_relay_port_for_egress-fresh source_ip target_port (used_by_rules fwd.spec.egress_rules [])
        new e in
    used_by_rules-All fwd.spec.egress_rules [] _ unused

used_by_rules-Distinct :
    (rules : List ForwarderRule) (used : Dict Text)
    → Distinct used
    → Distinct (used_by_rules rules used)
unfolding used_by_rules
used_by_rules-Distinct [] used d = d
used_by_rules-Distinct (rule ∷ rules) used d =
    used_by_rules-Distinct rules (insert rule.relay_port rule.target_port used)
      (Distinct-insert rule.relay_port rule.target_port used d)

pub gen_used_ports_for_egress-Distinct :
    {C : Type 0} (fwd : Forwarder C) → Distinct (gen_used_ports_for_egress fwd)
unfolding gen_used_ports_for_egress
gen_used_ports_for_egress-Distinct fwd = used_by_rules-Distinct fwd.spec.egress_rules [] tt

pub gen_used_ports_for_egress_same :
    {C : Type 0} (f g : Forwarder C)
    → f.spec ≡ g.spec
    → gen_used_ports_for_egress f ≡ gen_used_ports_for_egress g
unfolding gen_used_ports_for_egress
gen_used_ports_for_egress_same f g e = ap (λ (x : ForwarderSpec). used_by_rules x.egress_rules []) e
