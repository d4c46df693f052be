-- ===== src/Operator/Update/Served.antt =====
-- `updateForwarderRules` and `updateGatewayRules` of pkg/controller/externalservice/reconciler.go
-- one after the other, as Reconcile calls them.
use k8s_ext_connector.Prelude.{
  Text, ℕ, Option, some, List, ◌≡◌, ◌⊎◌, refl, sym, ap, ◌∙◌, inl, inr, In, All, All-pointwise,
  subst,
}
use k8s_ext_connector.Exec.{ok, Leaves}
use k8s_ext_connector.Util.Ip.Names.{ReadsBytes}
use k8s_ext_connector.Api.{
  NamespacedName, ExternalService, ForwarderRule, ForwarderSpec, Forwarder, Gateway,
}
use k8s_ext_connector.Api.Client.{Client}
use k8s_ext_connector.Api.Conditions.{Conditions, ConditionLaws}
use k8s_ext_connector.Operator.Names.{connector_namespace}
use k8s_ext_connector.Operator.Rules.{gateway_rule}
use k8s_ext_connector.Operator.Rules.Gateways.{gen_gateway_rules-In}
use k8s_ext_connector.Operator.Rules.Unique.{gateway_of}
use k8s_ext_connector.Operator.Update.Store.{forwarder_kind, gateway_kind, Store}
use k8s_ext_connector.Operator.Update.Found.{Apart, Reads}
use k8s_ext_connector.Operator.Update.Apart.{Apart-cases, IsPaired}
use k8s_ext_connector.Operator.Update.Paired.{IsWrittenAlike, gen_forwarder_ingress_rules-IsPaired}
use k8s_ext_connector.Operator.Update.Written.{OthersRead}
use k8s_ext_connector.Operator.Update.Gateways.{IsHanded}
use k8s_ext_connector.Operator.Update.Ingress.{update_gateway_rules-IsHanded}
use k8s_ext_connector.Operator.Update.Forwarders.{update_forwarder_rules-IsHanded}
use k8s_ext_connector.Operator.Update.{owner_name, update_forwarder_rules, update_gateway_rules}

module _ {C W : Type 0} (K : Conditions C) (L : ConditionLaws K) (no_conditions : C)
    (cl : Client C W) (parse_ipv6 : Text → Option (List ℕ))
    (SF : Store forwarder_kind cl.update_forwarder cl.update_forwarder_status)
    (SG : Store gateway_kind cl.update_gateway cl.update_gateway_status) where
  -- Reads change nothing, and answer from a cache.
  pub record ApiLaws : Type 0 where
    pub forwarders : Reads forwarder_kind SF cl.get_forwarder cl.create_forwarder
    pub others : OthersRead K L no_conditions cl parse_ipv6 SF
    pub gateways : Reads gateway_kind SG cl.get_gateway cl.create_gateway
    pub get_keeps :
        (n m : NamespacedName) → Leaves (SG.stored m.namespace m.name) (cl.get_forwarder n)
    pub list_keeps : (m : NamespacedName) → Leaves (SG.stored m.namespace m.name) cl.list_forwarders

  -- The gateway of the rule is stored with the rule's address, the rule made from the rule and
  -- those made from the egress rules of the forwarder that name it.
  abbrev pub IsServed : Forwarder C → W → ForwarderRule → Type 0
  IsServed fwd w rule =
      (gw : Gateway C) × (SG.stored rule.gateway.namespace rule.gateway.name w ≡ some gw)
      × (gw.spec.gateway_ip ≡ rule.gateway_ip)
      × In (gateway_rule fwd rule) gw.spec.ingress_rules
      × All
          (λ e.
            Apart (gateway_of e) (gateway_of rule) ⊎ In (gateway_rule fwd e) gw.spec.egress_rules)
          fwd.spec.egress_rules

  IsHanded-IsServed :
      (fwd : Forwarder C) (fwds : List (Forwarder C)) (rule : ForwarderRule) (start w : W)
      → In fwd fwds
      → In rule fwd.spec.ingress_rules
      → IsHanded K L no_conditions cl SG fwds rule.gateway_ip (gateway_of rule) start w
      → IsServed fwd w rule
  IsHanded-IsServed fwd fwds rule start w i j d =
      let spec = d.handed.0.rules in
      (
        d.after,
        d.here,
        ap (λ s. s.gateway_ip) spec,
        subst (λ s. In (gateway_rule fwd rule) s.ingress_rules) (sym spec)
            ((gen_gateway_rules-In (gateway_rule fwd rule) fwds d.before).1.1
              (fwd, rule, i, j, (sym d.namespace, sym d.name), refl)),
        All-pointwise _ fwd.spec.egress_rules λ e m.
            elim (Apart-cases (gateway_of e) (gateway_of rule)) [
              | inl apart ↦ inl apart
              | inr same ↦ inr (
                  subst (λ s. In (gateway_rule fwd e) s.egress_rules) (sym spec)
                    ((gen_gateway_rules-In (gateway_rule fwd e) fwds d.before).0.1 (
                      fwd,
                      e,
                      i,
                      m,
                      (
                        ap (λ (n : NamespacedName). n.namespace) same ∙ sym d.namespace,
                        ap (λ (n : NamespacedName). n.name) same ∙ sym d.name,
                      ),
                      refl,
                    )))
            ],
      )

  -- Let updateForwarderRules and then updateGatewayRules succeed for a resource, of whose sources
  -- those that stand for one IPv4 address write it alike, and let the client's cache have caught
  -- up in between: the second reads the forwarder that the first left stored, and it is in the
  -- list of forwarders that the second reads. Then each ingress rule of that forwarder has its
  -- gateway stored, with the rule's address, the rule made from it, and the rules made from the
  -- egress rules of that forwarder that name this gateway.
  pub update_gateway_rules-update_forwarder_rules :
      (api : ApiLaws) (cr : ExternalService) (fwd : Forwarder C) (fwds : List (Forwarder C)) (w : W)
      → ReadsBytes parse_ipv6
      → IsWrittenAlike parse_ipv6 cr.spec.sources
      → (update_forwarder_rules K no_conditions cl parse_ipv6 cr w).0 ≡ ok tt
      → (update_gateway_rules K no_conditions cl cr
          (update_forwarder_rules K no_conditions cl parse_ipv6 cr w).1).0
        ≡ ok tt
      → SF.stored connector_namespace cr.meta.name
          (update_forwarder_rules K no_conditions cl parse_ipv6 cr w).1
        ≡ some fwd
      → (cl.get_forwarder
          (owner_name cr)
          (update_forwarder_rules K no_conditions cl parse_ipv6 cr w).1).0
        ≡ ok fwd
      → (cl.list_forwarders
          (cl.get_forwarder
            (owner_name cr)
            (update_forwarder_rules K no_conditions cl parse_ipv6 cr w).1).1).0
        ≡ ok fwds
      → In fwd fwds
      → All
          (IsServed fwd
            (update_gateway_rules K no_conditions cl cr
              (update_forwarder_rules K no_conditions cl parse_ipv6 cr w).1).1)
          fwd.spec.ingress_rules
  update_gateway_rules-update_forwarder_rules api cr fwd fwds w reads alike h h' stored got listed
        member =
      let d =
        update_forwarder_rules-IsHanded K L no_conditions cl parse_ipv6 SF api.forwarders api.others
          cr w h in
      let v = (update_forwarder_rules K no_conditions cl parse_ipv6 cr w).1 in
      let both = sym d.here ∙ stored in
      let known : d.after ≡ fwd = cc in
      let paired =
        subst (λ rules. IsPaired rules)
          (ap (λ (s : ForwarderSpec). s.ingress_rules)
            (sym d.handed.rules ∙ ap (λ (f : Forwarder C). f.spec) known))
          (gen_forwarder_ingress_rules-IsPaired parse_ipv6 cl cr _ _ d.spec.ingress_rules _ reads
            alike d.generated.rules.ingress) in
      All-pointwise _ fwd.spec.ingress_rules λ rule i.
        IsHanded-IsServed fwd fwds rule v _ member i
          (update_gateway_rules-IsHanded K L no_conditions cl SG api.gateways api.get_keeps
            api.list_keeps cr fwd fwds rule (gateway_of rule) v got listed paired i h').0
