-- ===== src/Gateway/Rules/Chains.antt =====
-- The names of a gateway's chains.
use k8s_ext_connector.Prelude.{
  Text, List, [], ◌∷◌, eq_refl, some, ap, ◌++◌, ◌==◌, eq_iff, ◌≡◌, ◌≢◌, refl, none, false,
  Bool-cases, inl, inr,
}
use k8s_ext_connector.Prelude.Dict.{lookup}
use k8s_ext_connector.Operator.Ports.Assign.{Distinct}
use k8s_ext_connector.Api.{GatewayRule, Gateway}
use k8s_ext_connector.Iptables.{chain_prerouting, chain_postrouting}
use k8s_ext_connector.Iptables.Match.{dnat_each}
use k8s_ext_connector.Gateway.Rules.{
  prerouting, prechain_prefix, postchain_prefix, jump_chains, own_chains,
}

pub jump_chains-Distinct : (hex_ip : Text) → Distinct (jump_chains hex_ip)
unfolding jump_chains lookup ◌==◌ chain_prerouting chain_postrouting
jump_chains-Distinct hex_ip = (refl, (refl, tt))

pub own_chains-Distinct :
    {C : Type 0} (hex_ip : Text) (gw : Gateway C) → Distinct (own_chains hex_ip gw)
unfolding own_chains lookup ◌==◌
own_chains-Distinct hex_ip gw = (refl, (refl, tt))

not_eq : (s t : Text) → s ≢ t → (s == t) ≡ false
not_eq s t h = elim (Bool-cases (s == t)) [
  | inl same ↦ absurd (h ((eq_iff s t).0 same))
  | inr other ↦ other
]

module _ {C : Type 0} (hex_ip other : Text) (gw : Gateway C) (h : hex_ip ≢ other) where
  -- The chains of another address are none of the gateway's.
  pub lookup-own_chains_pre : lookup (prechain_prefix ++ other) (own_chains hex_ip gw) ≡ none
  unfolding own_chains lookup ◌==◌
  lookup-own_chains_pre = rw (not_eq hex_ip other h) refl

  pub lookup-own_chains_post : lookup (postchain_prefix ++ other) (own_chains hex_ip gw) ≡ none
  unfolding own_chains lookup ◌==◌
  lookup-own_chains_post = rw (not_eq hex_ip other h) refl

module _ (hex_ip other : Text) where
  pub lookup-jump_chains_pre : lookup (prechain_prefix ++ other) (jump_chains hex_ip) ≡ none
  unfolding jump_chains lookup ◌==◌ chain_prerouting chain_postrouting
  lookup-jump_chains_pre = refl

  pub lookup-jump_chains_post : lookup (postchain_prefix ++ other) (jump_chains hex_ip) ≡ none
  unfolding jump_chains lookup ◌==◌ chain_prerouting chain_postrouting
  lookup-jump_chains_post = refl

prerouting-dnat_each :
    (ip : Text) (rules : List GatewayRule)
    → prerouting ip rules
      ≡ dnat_each
          (λ rule. rule.source_ip)
          (λ rule. rule.target_port)
          (λ rule. rule.relay_port)
          ip
          rules
unfolding prerouting dnat_each
prerouting-dnat_each ip [] = refl
prerouting-dnat_each ip (rule ∷ rules) = rw (prerouting-dnat_each ip rules) refl

-- The gateway's own chain redirects for each ingress rule.
pub lookup-own_chains_own :
    {C : Type 0} (hex_ip : Text) (gw : Gateway C)
    → lookup (prechain_prefix ++ hex_ip) (own_chains hex_ip gw)
      ≡ some (
          dnat_each
            (λ rule. rule.source_ip)
            (λ rule. rule.target_port)
            (λ rule. rule.relay_port)
            gw.spec.gateway_ip
            gw.spec.ingress_rules)
unfolding own_chains lookup
lookup-own_chains_own hex_ip gw =
    rw (eq_refl (prechain_prefix ++ hex_ip))
      (ap some (prerouting-dnat_each gw.spec.gateway_ip gw.spec.ingress_rules))
