-- ===== src/Operator/Rules/Unique.antt =====
-- Which gateways `getUniqueGatwey` of pkg/controller/externalservice/reconciler.go finds.
use k8s_ext_connector.Prelude.{
  Text, true, some, List, [], ◌∷◌, ◌==◌, eq_iff, eq_refl, ◌≡◌, ◌⊎◌, refl, sym, ap, ◌∙◌, arith, inl,
  inr, Bool-cases, In,
}
use k8s_ext_connector.Prelude.Dict.{Dict, lookup, insert, has, lookup-insert}
use k8s_ext_connector.Api.{NamespacedName, ForwarderRule}
use k8s_ext_connector.Operator.Ports.Assign.{Distinct, Distinct-insert}
use k8s_ext_connector.Operator.Rules.{unique_gateways}

-- The gateway of a rule.
abbrev pub gateway_of : ForwarderRule → NamespacedName
gateway_of rule = record { namespace = rule.gateway.namespace; name = rule.gateway.name }

pub unique_gateways-Distinct :
    (rules : List ForwarderRule) (found : Dict NamespacedName)
    → Distinct found
    → Distinct (unique_gateways rules found)
unfolding unique_gateways
unique_gateways-Distinct [] found d = d
unique_gateways-Distinct (rule ∷ rules) found d = elim (Bool-cases (has rule.gateway_ip found)) [
  | inl old ↦ rw old (unique_gateways-Distinct rules found d)
  | inr new ↦ rw new (
      unique_gateways-Distinct rules (insert rule.gateway_ip (gateway_of rule) found)
        (Distinct-insert rule.gateway_ip (gateway_of rule) found d))
]

-- What is found comes from a rule.
pub unique_gateways_sound :
    (rules : List ForwarderRule) (found : Dict NamespacedName) (ip : Text) (n : NamespacedName)
    → lookup ip (unique_gateways rules found) ≡ some n
    → ((rule : ForwarderRule) × In rule rules × (rule.gateway_ip ≡ ip) × (gateway_of rule ≡ n))
      ⊎ (lookup ip found ≡ some n)
unfolding unique_gateways
unique_gateways_sound [] found ip n h = inr h
unique_gateways_sound (rule ∷ rules) found ip n h = elim (Bool-cases (has rule.gateway_ip found)) [
  | inl old ↦ elim (unique_gateways_sound rules found ip n (rw old at h)) [
    | inl (r, i, a, b) ↦ inl (r, inr i, a, b)
    | inr e ↦ inr e
  ]
  | inr new ↦
      elim (unique_gateways_sound rules (insert rule.gateway_ip (gateway_of rule) found) ip n
        (rw new at h)) [
          | inl (r, i, a, b) ↦ inl (r, inr i, a, b)
          | inr e ↦
              let e' = sym (lookup-insert rule.gateway_ip ip (gateway_of rule) found) ∙ e in
              elim (Bool-cases (rule.gateway_ip == ip)) [
                | inl same ↦
                    inl (rule, inl refl, (eq_iff rule.gateway_ip ip).0 same, cc (rw same at e'))
                | inr other ↦ inr (rw other at e')
              ]
        ]
]

-- The address of each rule is found.
unique_gateways_keep :
    (rules : List ForwarderRule) (found : Dict NamespacedName) (ip : Text)
    → has ip found ≡ true
    → has ip (unique_gateways rules found) ≡ true
unfolding unique_gateways
unique_gateways_keep [] found ip h = h
unique_gateways_keep (rule ∷ rules) found ip h = elim (Bool-cases (has rule.gateway_ip found)) [
  | inl old ↦ rw old (unique_gateways_keep rules found ip h)
  | inr new ↦ rw new (
      unique_gateways_keep rules (insert rule.gateway_ip (gateway_of rule) found) ip
        (ground (arith, h, lookup-insert rule.gateway_ip ip (gateway_of rule) found)))
]

pub unique_gateways_complete :
    (rules : List ForwarderRule) (found : Dict NamespacedName) (rule : ForwarderRule)
    → In rule rules
    → has rule.gateway_ip (unique_gateways rules found) ≡ true
unfolding unique_gateways
unique_gateways_complete [] found rule i = absurd i
unique_gateways_complete (r ∷ rules) found rule (inr i) = unique_gateways_complete rules _ rule i
unique_gateways_complete (r ∷ rules) found rule (inl e) =
    let same = ap (λ (x : ForwarderRule). x.gateway_ip) e in
    unique_gateways_keep rules _ rule.gateway_ip (
      ground (
        arith,
        same,
        eq_refl r.gateway_ip,
        lookup-insert r.gateway_ip rule.gateway_ip (gateway_of r) found,
      ))
