-- ===== src/Operator/Update/Written.antt =====
-- What `updateForwarderRules` of pkg/controller/externalservice/reconciler.go reads, generates and
-- writes once `RuleUpdating` is set.
use k8s_ext_connector.Prelude.{
  Text, ℕ, Option, some, List, [], ◌==◌, eq_iff, ◌≡◌, ◌≢◌, refl, sym, ap, ◌∙◌, inl, inr, Bool-cases,
  if◌then◌else◌, Bool,
}
use k8s_ext_connector.Prelude.Dict.{Dict}
use k8s_ext_connector.Exec.{ok, Exec, fail, no_pod_ip, Leaves, >>=_ran, ◌>>=◌}
use k8s_ext_connector.Api.{
  NamespacedName, ExternalService, ForwarderRule, ForwarderSpec, Forwarder, Gateway, Pod,
}
use k8s_ext_connector.Api.Client.{Client}
use k8s_ext_connector.Api.Conditions.{Conditions, ConditionLaws}
use k8s_ext_connector.Operator.Ports.{gen_used_ports_for_egress, gen_used_ports_for_ingress}
use k8s_ext_connector.Operator.Rules.{gen_forwarder_egress_rules, gen_forwarder_ingress_rules}
use k8s_ext_connector.Operator.Update.Store.{KindLaws, forwarder_kind, Store}
use k8s_ext_connector.Operator.Update.Begin.{Begun, Begun-at, IsHandedOver, written-IsHandedOver}
use k8s_ext_connector.Operator.Update.Generated.{
  gen_forwarder_egress_rules_leaves, gen_forwarder_ingress_rules_leaves,
}
use k8s_ext_connector.Operator.Update.{owner_name, set_forwarder_rules, finish_forwarder}

pub forwarder_laws : {C : Type 0} → KindLaws {C = C} forwarder_kind
forwarder_laws = record {
  namespace_lem = λ c n o. refl;
  name_lem = λ c n o. refl;
  spec_lem = λ c n o. refl;
  conditions_lem = λ c n o. refl;
  rule_generation_lem = λ c n o. refl;
  sync_generation_lem = λ c n o. refl;
  version_lem = λ c n o. refl;
}

module _ {C W : Type 0} (K : Conditions C) (L : ConditionLaws K) (no_conditions : C)
    (cl : Client C W) (parse_ipv6 : Text → Option (List ℕ))
    (S : Store forwarder_kind cl.update_forwarder cl.update_forwarder_status) where
  -- The other calls of an update only read.
  pub record OthersRead : Type 0 where
    pub pods : (m n : NamespacedName) → Leaves (S.stored m.namespace m.name) (cl.get_pod n)
    pub services : (m n : NamespacedName) → Leaves (S.stored m.namespace m.name) (cl.get_service n)
    pub endpoints :
        (m n : NamespacedName) → Leaves (S.stored m.namespace m.name) (cl.get_endpoints n)
    pub gateways : (m : NamespacedName) → Leaves (S.stored m.namespace m.name) cl.list_gateways

  -- The rules of the spec are those generated with the ports used: the egress rules first, then the ingress rules
  -- for the gateways listed.
  pub record RulesGenerated (cr : ExternalService) (used : Dict Text) (spec : ForwarderSpec) (w : W)
      : Type 0 where
    pub egress_used : Dict Text
    pub egress :
        (gen_forwarder_egress_rules cl parse_ipv6 cr used w).0 ≡ ok (spec.egress_rules, egress_used)
    pub gateways : List (Gateway C)
    pub listed :
        (cl.list_gateways (gen_forwarder_egress_rules cl parse_ipv6 cr used w).1).0 ≡ ok gateways
    pub ingress_used : Dict (Dict Text)
    pub ingress :
        (gen_forwarder_ingress_rules cl parse_ipv6 cr
          (gen_used_ports_for_ingress gateways)
          (cl.list_gateways (gen_forwarder_egress_rules cl parse_ipv6 cr used w).1).1).0
        ≡ ok (spec.ingress_rules, ingress_used)

  -- The address is that of the pod, which has one.
  pub record Generated (cr : ExternalService) (used : Dict Text) (spec : ForwarderSpec) (w : W)
      : Type 0 where
    pub pod : Pod
    pub read : (cl.get_pod (owner_name cr) w).0 ≡ ok pod
    pub address : spec.forwarder_ip ≡ pod.pod_ip
    pub has_address : pod.pod_ip ≢ []
    pub rules : RulesGenerated cr used spec (cl.get_pod (owner_name cr) w).1

  -- The last calls: the rules are written, and the update is finished.
  abbrev write : ForwarderSpec → Forwarder C → Exec W (Unit {0})
  write spec g =
      cl.update_forwarder (
        set_forwarder_rules K no_conditions cl spec.egress_rules spec.ingress_rules
          spec.forwarder_ip g)
      >>= finish_forwarder K no_conditions cl

  write-IsHandedOver :
      (o g s : Forwarder C) (spec : ForwarderSpec) (start w : W)
      → Begun K L forwarder_kind forwarder_laws S o g s start w
      → (write spec g w).0 ≡ ok tt
      → (s₃ : Forwarder C) × (S.stored o.meta.namespace o.meta.name (write spec g w).1 ≡ some s₃)
        × IsHandedOver K L forwarder_kind forwarder_laws S o spec s₃
        × (S.stored o.meta.namespace o.meta.name start ≡ some o)
  unfolding set_forwarder_rules finish_forwarder
  write-IsHandedOver o g s spec start w b h =
      let given =
        set_forwarder_rules K no_conditions cl spec.egress_rules spec.ingress_rules
          spec.forwarder_ip g in
      let (g₂, updated, same) =
        >>=_ran (cl.update_forwarder given) (finish_forwarder K no_conditions cl) w h in
      let (s₃, at, d, was) =
        written-IsHandedOver K L forwarder_kind forwarder_laws S o g s g₂ given start w b
          (refl, refl) refl updated (ap (λ r. r.0) (sym same) ∙ h) in
      (s₃, ap (λ r. S.stored o.meta.namespace o.meta.name r.1) same ∙ at, d, was)

  -- What comes before: the gateways are listed and the ingress rules generated.
  abbrev write_ingress :
      ExternalService → Text → List ForwarderRule → Forwarder C → Exec W (Unit {0})
  write_ingress cr ip e_rules g = do
    gws ← cl.list_gateways
    (i_rules, _) ← gen_forwarder_ingress_rules cl parse_ipv6 cr (gen_used_ports_for_ingress gws)
    write (record { egress_rules = e_rules; ingress_rules = i_rules; forwarder_ip = ip }) g

  abbrev write_egress : ExternalService → Text → Forwarder C → Exec W (Unit {0})
  write_egress cr ip g = do
    (e_rules, _) ← gen_forwarder_egress_rules cl parse_ipv6 cr (gen_used_ports_for_egress g)
    write_ingress cr ip e_rules g

  abbrev pub write_pod : ExternalService → Forwarder C → Exec W (Unit {0})
  write_pod cr g = do
    pod ← cl.get_pod (owner_name cr)
    if pod.pod_ip == [] then fail no_pod_ip else write_egress cr pod.pod_ip g

  module _ (E : OthersRead) where
    write_egress-IsHandedOver :
        (cr : ExternalService) (ip : Text) (o g s : Forwarder C) (start w : W)
        → Begun K L forwarder_kind forwarder_laws S o g s start w
        → (write_egress cr ip g w).0 ≡ ok tt
        → (spec : ForwarderSpec) × (spec.forwarder_ip ≡ ip)
          × RulesGenerated cr (gen_used_ports_for_egress g) spec w
          × ((s₃ : Forwarder C) × (S.stored o.meta.namespace o.meta.name (write_egress cr ip g w).1
                ≡ some s₃)
              × IsHandedOver K L forwarder_kind forwarder_laws S o spec s₃
              × (S.stored o.meta.namespace o.meta.name start ≡ some o))
    write_egress-IsHandedOver cr ip o g s start w b h =
        let n : NamespacedName = record { namespace = o.meta.namespace; name = o.meta.name } in
        let used = gen_used_ports_for_egress g in
        let (got, egress, same) =
          >>=_ran (gen_forwarder_egress_rules cl parse_ipv6 cr used) _ w h in
        let w₁ = (gen_forwarder_egress_rules cl parse_ipv6 cr used w).1 in
        let (gws, listed, same') = >>=_ran cl.list_gateways _ w₁ (ap (λ r. r.0) (sym same) ∙ h) in
        let w₂ = (cl.list_gateways w₁).1 in
        let iused = gen_used_ports_for_ingress gws in
        let (igot, ingress, same'') =
          >>=_ran (gen_forwarder_ingress_rules cl parse_ipv6 cr iused) _ w₂
            (ap (λ r. r.0) (sym same') ∙ ap (λ r. r.0) (sym same) ∙ h) in
        let w₃ = (gen_forwarder_ingress_rules cl parse_ipv6 cr iused w₂).1 in
        let spec : ForwarderSpec = record {
          egress_rules = got.0;
          ingress_rules = igot.0;
          forwarder_ip = ip;
        } in
        let f = S.stored o.meta.namespace o.meta.name in
        let keeps =
          gen_forwarder_ingress_rules_leaves cl parse_ipv6 f (E.endpoints n) (E.services n) cr iused
            w₂
          ∙ E.gateways n w₁
          ∙ gen_forwarder_egress_rules_leaves cl parse_ipv6 f (E.endpoints n) (E.services n) cr used
              w in
        let ran = same ∙ same' ∙ same'' in
        let (s₃, at, d, was) =
          write-IsHandedOver o g s spec start w₃
            (Begun-at K L forwarder_kind forwarder_laws S o g s start w w₃ keeps b)
            (ap (λ r. r.0) (sym ran) ∙ h) in
        (
          spec,
          refl,
          record {
            egress_used = got.1;
            egress = egress;
            gateways = gws;
            listed = listed;
            ingress_used = igot.1;
            ingress = ingress;
          },
          (s₃, ap (λ r. f r.1) ran ∙ at, d, was),
        )

    pub write_pod-IsHandedOver :
        (cr : ExternalService) (o g s : Forwarder C) (start w : W)
        → Begun K L forwarder_kind forwarder_laws S o g s start w
        → (write_pod cr g w).0 ≡ ok tt
        → (spec : ForwarderSpec) × Generated cr (gen_used_ports_for_egress g) spec w
          × ((s₃ : Forwarder C) × (S.stored o.meta.namespace o.meta.name (write_pod cr g w).1
                ≡ some s₃)
              × IsHandedOver K L forwarder_kind forwarder_laws S o spec s₃
              × (S.stored o.meta.namespace o.meta.name start ≡ some o))
    write_pod-IsHandedOver cr o g s start w b h =
        let n : NamespacedName = record { namespace = o.meta.namespace; name = o.meta.name } in
        let owner = owner_name cr in
        let (pod, pod_read, same) = >>=_ran (cl.get_pod owner) _ w h in
        let w₁ = (cl.get_pod owner w).1 in
        elim (Bool-cases (pod.pod_ip == [])) [
          | inl empty ↦ absurd (let bad = (rw empty at (ap (λ r. r.0) (sym same) ∙ h)) in cc)
          | inr given ↦
              let ran =
                same
                ∙ ap (λ (x : Bool). (if x then fail no_pod_ip else write_egress cr pod.pod_ip g) w₁)
                    given in
              let (spec, address, rules, (s₃, at, d, was)) =
                write_egress-IsHandedOver cr pod.pod_ip o g s start w₁
                  (Begun-at K L forwarder_kind forwarder_laws S o g s start w w₁ (E.pods n owner w)
                    b)
                  (ap (λ r. r.0) (sym ran) ∙ h) in
              (
                spec,
                record {
                  pod = pod;
                  read = pod_read;
                  address = address;
                  has_address = λ e. absurd (let bad = (eq_iff pod.pod_ip []).1 e in cc);
                  rules = rules;
                },
                (s₃, ap (λ r. S.stored o.meta.namespace o.meta.name r.1) ran ∙ at, d, was),
              )
        ]
