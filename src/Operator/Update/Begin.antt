-- ===== src/Operator/Update/Begin.antt =====
-- How an update of rules begins and ends, for both kinds of resource
-- (`updateForwarderRules` and `updateRulesForOneGateway` of
-- pkg/controller/externalservice/reconciler.go).
use k8s_ext_connector.Prelude.{true, some, ◌≡◌, refl, sym, ap, ◌∙◌, inl, inr, Bool-cases}
use k8s_ext_connector.Exec.{ok, Exec, pure, >>=_ran}
use k8s_ext_connector.Api.Conditions.{
  Conditions, ConditionLaws, rule_updating, rule_syncing, condition_true, condition_false,
  condition_unknown,
}
use k8s_ext_connector.Operator.Update.{
  rule_updating_condition, rule_syncing_condition, next_generation,
}
use k8s_ext_connector.Operator.Update.Store.{
  Kind, KindLaws, SameName, Store, IsCurrent, begin, finish,
}

module _ {C Spec O W : Type 0} (K : Conditions C) (L : ConditionLaws K) (k : Kind C Spec O)
    (KL : KindLaws k) {update update_status : O → Exec W O} (S : Store k update update_status) where
  -- What stands in `w` once `RuleUpdating` is set in an object that was read in `start`, where `g`
  -- is what is worked on from then on. The object may have come from a cache: `s` is what is stored
  -- if the version of `g` is still that of what is stored.
  pub record Begun (o g s : O) (start w : W) : Type 0 where
    pub current :
        (t : O) → S.stored (k.namespace o) (k.name o) w ≡ some t → k.version t ≡ k.version g → t ≡ s
    pub read_there :
        S.stored (k.namespace o) (k.name o) w ≡ some s
        → S.stored (k.namespace o) (k.name o) start ≡ some o
    pub stored_there :
        S.stored (k.namespace o) (k.name o) start ≡ some o
        → S.stored (k.namespace o) (k.name o) w ≡ some s
    pub names : SameName k g o
    pub spec : k.spec g ≡ k.spec o
    pub stored_spec : k.spec s ≡ k.spec o
    pub updating : L.status rule_updating (k.conditions s) ≡ some condition_true
    pub rule_generation : k.rule_generation s ≡ k.rule_generation o
    pub sync_generation : k.sync_generation s ≡ k.sync_generation o

  pub Begun-at :
      (o g s : O) (start w v : W)
      → S.stored (k.namespace o) (k.name o) v ≡ S.stored (k.namespace o) (k.name o) w
      → Begun o g s start w
      → Begun o g s start v
  Begun-at o g s start w v e b = record {
    current = λ t at. b.current t (sym e ∙ at);
    read_there = λ at. b.read_there (sym e ∙ at);
    stored_there = λ at. e ∙ b.stored_there at;
    names = b.names;
    spec = b.spec;
    stored_spec = b.stored_spec;
    updating = b.updating;
    rule_generation = b.rule_generation;
    sync_generation = b.sync_generation;
  }

  pub begin-Begun :
      (o g : O) (w : W)
      → IsCurrent k S o w
      → (begin k K update_status o w).0 ≡ ok g
      → (s : O) × Begun o g s w (begin k K update_status o w).1
  begin-Begun o g w fresh h =
      let c = k.conditions o in
      let n = rule_updating_condition condition_true in
      let c' = (K.set_condition n c).0 in
      let o' = k.with_status c' (k.rule_generation o) o in
      let ns = KL.namespace_lem c' (k.rule_generation o) o in
      let nm = KL.name_lem c' (k.rule_generation o) o in
      let same_version = KL.version_lem c' (k.rule_generation o) o in
      elim (Bool-cases (K.set_condition n c).1) [
        | inl sent ↦
            let answered = (rw sent at h) in
            let (t, there, v) = S.status_current o' g w answered in
            let e =
              (rw (ns, nm) at there)
              ∙ ap some (fresh t (rw (ns, nm) at there) (v ∙ same_version)) in
            let (at, names, spec, stat) = S.status_lem o' o g w (rw (ns, nm) e) answered in
            let here = (rw (ns, nm) at at) in
            (
              g,
              rw sent (record {
                current = λ x stored _. cc (stored, here);
                read_there = λ _. e;
                stored_there = λ _. here;
                names = (names.0 ∙ ns, names.1 ∙ nm);
                spec = spec;
                stored_spec = spec;
                updating =
                    ap (L.status rule_updating)
                      (stat.0 ∙ KL.conditions_lem c' (k.rule_generation o) o)
                    ∙ L.status-set n rule_updating c;
                rule_generation = stat.1 ∙ KL.rule_generation_lem c' (k.rule_generation o) o;
                sync_generation = stat.2 ∙ KL.sync_generation_lem c' (k.rule_generation o) o;
              }),
            )
        | inr kept ↦
            let same : o' ≡ g = cc (rw kept at h) in
            (
              o,
              rw kept (record {
                current = λ x stored v. fresh x stored (v ∙ ap k.version (sym same) ∙ same_version);
                read_there = λ at. at;
                stored_there = λ at. at;
                names = (ap k.namespace (sym same) ∙ ns, ap k.name (sym same) ∙ nm);
                stored_spec = refl;
                spec = ap k.spec (sym same) ∙ KL.spec_lem c' (k.rule_generation o) o;
                updating = L.unchanged n c kept;
                rule_generation = refl;
                sync_generation = refl;
              }),
            )
      ]

  -- The resource is handed over: rules are not being updated, whether they are synchronised is not
  -- known, and they are of the generation after the one before; the spec is as given.
  pub record IsHandedOver (o : O) (spec : Spec) (s : O) : Type 0 where
    pub names : SameName k s o
    pub rules : k.spec s ≡ spec
    pub updating : L.status rule_updating (k.conditions s) ≡ some condition_false
    pub syncing : L.status rule_syncing (k.conditions s) ≡ some condition_unknown
    pub rule_generation : k.rule_generation s ≡ next_generation (k.rule_generation o)
    pub sync_generation : k.sync_generation s ≡ k.sync_generation o

  finish-IsHandedOver :
      (o : O) (w : W)
      → S.stored (k.namespace o) (k.name o) w ≡ some o
      → L.status rule_updating (k.conditions o) ≡ some condition_true
      → (finish k K update_status o w).0 ≡ ok tt
      → (s : O) × (S.stored (k.namespace o) (k.name o) (finish k K update_status o w).1 ≡ some s)
        × IsHandedOver o (k.spec o) s
  finish-IsHandedOver o w e u h =
      let c = k.conditions o in
      let n = rule_updating_condition condition_false in
      let c₁ = (K.set_condition n c).0 in
      let n' = rule_syncing_condition condition_unknown in
      let c₂ = (K.set_condition n' c₁).0 in
      let m = next_generation (k.rule_generation o) in
      let o' = k.with_status c₂ m o in
      let ns = KL.namespace_lem c₂ m o in
      let nm = KL.name_lem c₂ m o in
      let changed : (K.set_condition n c).1 ≡ true = elim (Bool-cases (K.set_condition n c).1) [
        | inl sent ↦ sent
        | inr kept ↦ let same = L.unchanged n c kept in absurd cc
      ] in
      let (g, answered, same) = >>=_ran (update_status o') (λ _. pure tt) w (rw changed at h) in
      let (at, names, spec, stat) = S.status_lem o' o g w (rw (ns, nm) e) answered in
      let set = stat.0 ∙ KL.conditions_lem c₂ m o in
      (
        g,
        rw (changed, ap (λ r. r.1) same) (rw (ns, nm) at at),
        record {
          names = (names.0 ∙ ns, names.1 ∙ nm);
          rules = spec;
          updating =
              ap (L.status rule_updating) set
              ∙ L.status-set n' rule_updating c₁
              ∙ L.status-set n rule_updating c;
          syncing = ap (L.status rule_syncing) set ∙ L.status-set n' rule_syncing c₁;
          rule_generation = stat.1 ∙ KL.rule_generation_lem c₂ m o;
          sync_generation = stat.2 ∙ KL.sync_generation_lem c₂ m o;
        },
      )

  pub stored-SameName :
      (a b : O) (w : W)
      → SameName k a b
      → S.stored (k.namespace a) (k.name a) w ≡ S.stored (k.namespace b) (k.name b) w
  stored-SameName a b w (ns, nm) =
      ap (λ x. S.stored x (k.name a) w) ns ∙ ap (λ x. S.stored (k.namespace b) x w) nm

  -- A write that succeeds shows that what stands begun is stored.
  pub Begun-stored :
      (o g s g₂ given : O) (start w : W)
      → Begun o g s start w
      → SameName k given g
      → k.version given ≡ k.version g
      → (update given w).0 ≡ ok g₂
      → S.stored (k.namespace o) (k.name o) w ≡ some s
  Begun-stored o g s g₂ given start w b n v updated =
      let (t, there, current) = S.update_current given g₂ w updated in
      let at = sym (stored-SameName given o w (n.0 ∙ b.names.0, n.1 ∙ b.names.1)) ∙ there in
      at ∙ ap some (b.current t at (current ∙ v))

  -- The rules are written to what stands begun, and the update is finished: the object was the
  -- stored one when it was read.
  pub written-IsHandedOver :
      (o g s g₂ given : O) (start w : W)
      → Begun o g s start w
      → SameName k given g
      → k.version given ≡ k.version g
      → (update given w).0 ≡ ok g₂
      → (finish k K update_status g₂ (update given w).1).0 ≡ ok tt
      → (s₃ : O) × (S.stored
            (k.namespace o)
            (k.name o)
            (finish k K update_status g₂ (update given w).1).1
          ≡ some s₃)
        × IsHandedOver o (k.spec given) s₃
        × (S.stored (k.namespace o) (k.name o) start ≡ some o)
  written-IsHandedOver o g s g₂ given start w b n v updated h =
      let ns = n.0 ∙ b.names.0 in
      let nm = n.1 ∙ b.names.1 in
      let there = Begun-stored o g s g₂ given start w b n v updated in
      let (at, names, spec, stat) =
        S.update_lem given s g₂ w (stored-SameName given o w (ns, nm) ∙ there) updated in
      let w₂ = (update given w).1 in
      let (s₃, at₃, d) =
        finish-IsHandedOver g₂ w₂ (rw (names.0, names.1) at)
          (ap (L.status rule_updating) stat.0 ∙ b.updating) h in
      let w₃ = (finish k K update_status g₂ w₂).1 in
      let ns₃ = names.0 ∙ ns in
      let nm₃ = names.1 ∙ nm in
      (
        s₃,
        sym (stored-SameName g₂ o w₃ (ns₃, nm₃)) ∙ at₃,
        record {
          names = (d.names.0 ∙ ns₃, d.names.1 ∙ nm₃);
          rules = d.rules ∙ spec;
          updating = d.updating;
          syncing = d.syncing;
          rule_generation = d.rule_generation ∙ ap next_generation (stat.1 ∙ b.rule_generation);
          sync_generation = d.sync_generation ∙ stat.2 ∙ b.sync_generation;
        },
        b.read_there there,
      )
