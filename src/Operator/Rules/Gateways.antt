-- ===== src/Operator/Rules/Gateways.antt =====
-- Which rules a gateway is given (`genGatewayEgressRules`, `genGatewayIngressRules`).
use k8s_ext_connector.Prelude.{
  true, false, List, [], ◌∷◌, ◌++◌, eq_iff, ◌≡◌, ◌↔◌, ◌⊎◌, inl, inr, refl, ap, ◌∙◌, subst, arith,
  In, In-append, Bool-cases,
}
use k8s_ext_connector.Api.{ForwarderRule, Forwarder, GatewayRule, Gateway}
use k8s_ext_connector.Operator.Rules.{
  gateway_rule, is_unrelated, rules_for_gateway, gen_gateway_egress_rules,
  gen_gateway_ingress_rules,
}

module _ {C : Type 0} where
  -- The rule names the gateway.
  abbrev pub Names : ForwarderRule → Gateway C → Type 0
  Names rule gw = (rule.gateway.namespace ≡ gw.meta.namespace) × (rule.gateway.name ≡ gw.meta.name)

  is_unrelated_iff :
      (rule : ForwarderRule) (gw : Gateway C) → (is_unrelated rule gw ≡ false) ↔ Names rule gw
  unfolding is_unrelated
  is_unrelated_iff rule gw = (
    λ h. ground (
      arith,
      eq_iff rule.gateway.namespace gw.meta.namespace,
      eq_iff rule.gateway.name gw.meta.name,
    ),
    λ (a, b). ground (
      arith,
      eq_iff rule.gateway.namespace gw.meta.namespace,
      eq_iff rule.gateway.name gw.meta.name,
    ),
  )

  not_unrelated :
      (rule : ForwarderRule) (gw : Gateway C) → is_unrelated rule gw ≡ true → ¬ Names rule gw
  not_unrelated rule gw h n = cc ((is_unrelated_iff rule gw).1 n)

  -- A gateway's rule comes from a rule of the list that names the gateway.
  abbrev FromRule : GatewayRule → Forwarder C → Gateway C → List ForwarderRule → Type 0
  FromRule r fwd gw rules =
      (rule : ForwarderRule) × In rule rules × Names rule gw × (r ≡ gateway_rule fwd rule)

  rules_for_gateway-In :
      (r : GatewayRule) (fwd : Forwarder C) (gw : Gateway C) (rules : List ForwarderRule)
      → In r (rules_for_gateway fwd gw rules) ↔ FromRule r fwd gw rules
  unfolding rules_for_gateway
  rules_for_gateway-In r fwd gw [] = (λ h. absurd h, λ h. absurd h.1)
  rules_for_gateway-In r fwd gw (rule ∷ rules) =
      let ih = rules_for_gateway-In r fwd gw rules in
      elim (Bool-cases (is_unrelated rule gw)) [
        | inl other ↦ rw other (
          λ h. let (rule', m, n, e) = ih.0 h in (rule', inr m, n, e),
          λ (rule', m, n, e). elim m [
            | inl same ↦ absurd (not_unrelated rule gw other (subst (λ x. Names x gw) same n))
            | inr m' ↦ ih.1 (rule', m', n, e)
          ],
        )
        | inr mine ↦ rw mine (
          λ h. elim h [
            | inl e ↦ (rule, inl refl, (is_unrelated_iff rule gw).0 mine, e)
            | inr m ↦ let (rule', m', n, e) = ih.0 m in (rule', inr m', n, e)
          ],
          λ (rule', m, n, e). elim m [
            | inl same ↦ inl (e ∙ ap (gateway_rule fwd) same)
            | inr m' ↦ inr (ih.1 (rule', m', n, e))
          ],
        )
      ]

  -- A gateway's rule comes from a rule of one of the forwarders that names the gateway.
  abbrev pub FromForwarders :
      (Forwarder C → List ForwarderRule) → GatewayRule → List (Forwarder C) → Gateway C → Type 0
  FromForwarders rules r fwds gw =
      (fwd : Forwarder C) × (rule : ForwarderRule) × In fwd fwds
      × In rule (rules fwd)
      × Names rule gw
      × (r ≡ gateway_rule fwd rule)

  -- One forwarder more.
  FromForwarders-cons :
      (rules : Forwarder C → List ForwarderRule) (r : GatewayRule) (fwd : Forwarder C)
      (fwds : List (Forwarder C)) (gw : Gateway C)
      → FromForwarders rules r (fwd ∷ fwds) gw
        ↔ (FromRule r fwd gw (rules fwd) ⊎ FromForwarders rules r fwds gw)
  FromForwarders-cons rules r fwd fwds gw = (
    λ (f, rule, m, n, names, e). elim m [
      | inl same ↦ inl (
        rule,
        subst (λ x. In rule (rules x)) same n,
        names,
        e ∙ ap (λ x. gateway_rule x rule) same,
      )
      | inr m' ↦ inr (f, rule, m', n, names, e)
    ],
    elim [
      | inl here ↦ (fwd, here.0, inl refl, here.1, here.2, here.3)
      | inr there ↦ (there.0, there.1, inr there.2, there.3, there.4, there.5)
    ],
  )

  -- The rules for one forwarder more, before those of the others.
  In-cons :
      (r : GatewayRule) (fwd : Forwarder C) (gw : Gateway C)
      (rules : Forwarder C → List ForwarderRule) (fwds : List (Forwarder C))
      (rest : List GatewayRule)
      → (In r rest ↔ FromForwarders rules r fwds gw)
      → In r (rules_for_gateway fwd gw (rules fwd) ++ rest) ↔ FromForwarders rules r (fwd ∷ fwds) gw
  In-cons r fwd gw rules fwds rest ih =
      let here = rules_for_gateway-In r fwd gw (rules fwd) in
      let parts = In-append r (rules_for_gateway fwd gw (rules fwd)) rest in
      let more = FromForwarders-cons rules r fwd fwds gw in
      (
        λ m. more.1 (elim (parts.0 m) [ inl h ↦ inl (here.0 h) | inr t ↦ inr (ih.0 t) ]),
        λ f. parts.1 (elim (more.0 f) [ inl h ↦ inl (here.1 h) | inr t ↦ inr (ih.1 t) ]),
      )

  gen_gateway_egress_rules-In :
      (r : GatewayRule) (fwds : List (Forwarder C)) (gw : Gateway C)
      → In r (gen_gateway_egress_rules fwds gw)
        ↔ FromForwarders (λ fwd. fwd.spec.egress_rules) r fwds gw
  unfolding gen_gateway_egress_rules
  gen_gateway_egress_rules-In r [] gw = (λ h. absurd h, λ h. absurd h.2)
  gen_gateway_egress_rules-In r (fwd ∷ fwds) gw =
      In-cons r fwd gw (λ x. x.spec.egress_rules) fwds (gen_gateway_egress_rules fwds gw)
        (gen_gateway_egress_rules-In r fwds gw)

  gen_gateway_ingress_rules-In :
      (r : GatewayRule) (fwds : List (Forwarder C)) (gw : Gateway C)
      → In r (gen_gateway_ingress_rules fwds gw)
        ↔ FromForwarders (λ fwd. fwd.spec.ingress_rules) r fwds gw
  unfolding gen_gateway_ingress_rules
  gen_gateway_ingress_rules-In r [] gw = (λ h. absurd h, λ h. absurd h.2)
  gen_gateway_ingress_rules-In r (fwd ∷ fwds) gw =
      In-cons r fwd gw (λ x. x.spec.ingress_rules) fwds (gen_gateway_ingress_rules fwds gw)
        (gen_gateway_ingress_rules-In r fwds gw)

  -- A gateway is given exactly the rules made from those rules of the listed forwarders that name
  -- it: egress rules from egress rules, and ingress rules from ingress rules.
  pub gen_gateway_rules-In :
      (r : GatewayRule) (fwds : List (Forwarder C)) (gw : Gateway C)
      → (In r (gen_gateway_egress_rules fwds gw)
          ↔ FromForwarders (λ fwd. fwd.spec.egress_rules) r fwds gw)
        × (In r (gen_gateway_ingress_rules fwds gw)
            ↔ FromForwarders (λ fwd. fwd.spec.ingress_rules) r fwds gw)
  gen_gateway_rules-In r fwds gw =
      (gen_gateway_egress_rules-In r fwds gw, gen_gateway_ingress_rules-In r fwds gw)

  module _ (g gw : Gateway C) (en : g.meta.namespace ≡ gw.meta.namespace)
      (em : g.meta.name ≡ gw.meta.name) where
    rules_for_gateway-named :
        (fwd : Forwarder C) (rules : List ForwarderRule)
        → rules_for_gateway fwd g rules ≡ rules_for_gateway fwd gw rules
    unfolding rules_for_gateway is_unrelated
    rules_for_gateway-named fwd [] = refl
    rules_for_gateway-named fwd (rule ∷ rules) = rw (en, em, rules_for_gateway-named fwd rules) refl

    -- Only the gateway's name counts.
    pub gen_gateway_egress_rules-named :
        (fwds : List (Forwarder C))
        → gen_gateway_egress_rules fwds g ≡ gen_gateway_egress_rules fwds gw
    unfolding gen_gateway_egress_rules
    gen_gateway_egress_rules-named [] = refl
    gen_gateway_egress_rules-named (fwd ∷ fwds) =
        rw (rules_for_gateway-named fwd fwd.spec.egress_rules, gen_gateway_egress_rules-named fwds)
          refl

    pub gen_gateway_ingress_rules-named :
        (fwds : List (Forwarder C))
        → gen_gateway_ingress_rules fwds g ≡ gen_gateway_ingress_rules fwds gw
    unfolding gen_gateway_ingress_rules
    gen_gateway_ingress_rules-named [] = refl
    gen_gateway_ingress_rules-named (fwd ∷ fwds) =
        rw
          (rules_for_gateway-named fwd fwd.spec.ingress_rules, gen_gateway_ingress_rules-named fwds)
          refl
