-- ===== src/Gateway/Protocol/Safety.antt =====
-- What holds in every reachable state of the operator and the gateway program.
use k8s_ext_connector.Prelude.{
  Text, ℕ, Bool, true, false, Option, some, List, ◌≡◌, inl, inr, refl, sym, ap, subst, ◌∙◌,
  Bool-cases, arith,
}
use k8s_ext_connector.Exec.{Result, ok, err, sent_or_kept}
use k8s_ext_connector.Api.{NamespacedName, Gateway}
use k8s_ext_connector.Api.Conditions.{Conditions, ConditionLaws, rule_syncing}
use k8s_ext_connector.Api.Client.{Client}
use k8s_ext_connector.Iptables.{IptInterface}
use k8s_ext_connector.Operator.Update.{begin_gateway, set_gateway_rules}
use k8s_ext_connector.Gateway.Status.{
  need_sync, need_check_sync, mark_syncing, mark_synced, set_syncing, set_synced,
}
use k8s_ext_connector.Gateway.Reconcile.{apply_iptables_rules}
use k8s_ext_connector.Gateway.Protocol.Store.{
  VersionedStore, version, IfStill, Wrote, WritesStatus, IfStill-Wrote, some-injective,
}
use k8s_ext_connector.Gateway.Protocol.Quiet.{
  Quiet, Quiet-update, Quiet-get, Updating, Quiet-begin_gateway, Quiet-finish_gateway,
  Quiet-set_syncing, set_synced-Wrote, set_synced-used, begin_gateway-Updating,
}
use k8s_ext_connector.Gateway.Protocol.Steps.{
  Operator, idle, has_read, has_begun, has_written, Reconciling, waiting, needs_sync, needs_check,
  is_syncing, has_applied, System, then_operator, then_gateway, then_applied, Step, operator_reads,
  operator_begins, operator_writes, operator_finishes, operator_stops, gateway_needs_sync,
  gateway_needs_check, gateway_finds_missing, gateway_begins, gateway_applies, gateway_finishes,
  gateway_stops, Reach, here, next,
}

module _ {C W V : Type 0} (K : Conditions C) (L : ConditionLaws K) (no_conditions : C)
    (cl : Client C W) (hosts : Client C V) (ipt : IptInterface V)
    (parse_ipv6 : Text → Option (List ℕ)) (is_port_open : Text → Text → V → Bool × V)
    (name : NamespacedName) (S : VersionedStore cl name) where
  -- The iptables are as a successful `applyIptablesRules` for these rules left them.
  abbrev pub Installed : Gateway C → V → Type 0
  Installed g v =
      (from : V) × (applied : Gateway C) × (applied.spec ≡ g.spec)
      × (apply_iptables_rules K hosts ipt parse_ipv6 is_port_open applied from ≡ (ok tt, v))

  Installed-spec : (a b : Gateway C) (v : V) → a.spec ≡ b.spec → Installed a v → Installed b v
  Installed-spec a b v e (from, applied, same, ran) = (from, applied, same ∙ e, ran)

  -- No object is stored whose rules are only checked.
  abbrev pub NotSynced : W → Type 0
  NotSynced w = (g : Gateway C) → S.stored w ≡ some g → need_check_sync K g ≡ false

  abbrev OperatorInv : W → Operator C → Type 0
  OperatorInv w idle = Unit
  OperatorInv w (has_read g) =
      S.used w (version g) × IfStill S.stored S.used w (version g) (λ x. x ≡ g)
  OperatorInv w (has_begun g) =
      S.used w (version g)
      × IfStill S.stored S.used w (version g) (Updating K L no_conditions cl name S)
  OperatorInv w (has_written g) = Unit

  -- The object that the gateway program holds has the stored rules, as long as its version is
  -- stored, and no object looks synchronised.
  abbrev Holds : W → Gateway C → Type 0
  Holds w g =
      S.used w (version g)
      × IfStill S.stored S.used w (version g) (λ x. x.spec ≡ g.spec)
      × NotSynced w

  abbrev GatewayInv : W → V → Reconciling C → Type 0
  GatewayInv w v waiting = Unit
  GatewayInv w v (needs_check g) = Unit
  GatewayInv w v (needs_sync g) = Holds w g
  GatewayInv w v (is_syncing g) = Holds w g
  GatewayInv w v (has_applied g) = Holds w g × Installed g v

  record Inv (s : System C W V) : Type 0 where
    synced :
        (g : Gateway C) → S.stored s.api ≡ some g → need_check_sync K g ≡ true → Installed g s.host
    operator : OperatorInv s.api s.operator
    gateway : GatewayInv s.api s.host s.gateway

  abbrev IsQuiet : W → W → Type 1
  IsQuiet = Quiet K L no_conditions cl name S

  NotSynced-Quiet : (w w' : W) → IsQuiet w w' → NotSynced w → NotSynced w'
  NotSynced-Quiet w w' q h g e = elim (Bool-cases (need_check_sync K g)) [
    | inl checked ↦ absurd (cc (h g (q.old g e checked), checked))
    | inr other ↦ other
  ]

  Holds-Quiet : (w w' : W) (g : Gateway C) → IsQuiet w w' → Holds w g → Holds w' g
  Holds-Quiet w w' g q (u, still, no_sync) = (
    q.mono (version g) u,
    q.still (version g) (λ x. x.spec ≡ g.spec) u still,
    NotSynced-Quiet w w' q no_sync,
  )

  GatewayInv-Quiet :
      (w w' : W) (v : V) (phase : Reconciling C)
      → IsQuiet w w'
      → GatewayInv w v phase
      → GatewayInv w' v phase
  GatewayInv-Quiet w w' v waiting q h = tt
  GatewayInv-Quiet w w' v (needs_check g) q h = tt
  GatewayInv-Quiet w w' v (needs_sync g) q h = Holds-Quiet w w' g q h
  GatewayInv-Quiet w w' v (is_syncing g) q h = Holds-Quiet w w' g q h
  GatewayInv-Quiet w w' v (has_applied g) q (h, i) = (Holds-Quiet w w' g q h, i)

  -- What a call must keep for the operator's object.
  abbrev Keeps : W → W → Type 1
  Keeps w w' =
      ((v : Text) → S.used w v → S.used w' v)
      × ((v : Text) (P : Gateway C → Type 0)
          → S.used w v
          → IfStill S.stored S.used w v P
          → IfStill S.stored S.used w' v P)

  OperatorInv-Keeps :
      (w w' : W) (phase : Operator C) → Keeps w w' → OperatorInv w phase → OperatorInv w' phase
  OperatorInv-Keeps w w' idle k h = tt
  OperatorInv-Keeps w w' (has_read g) k h =
      (k.0 (version g) h.0, k.1 (version g) (λ x. x ≡ g) h.0 h.1)
  OperatorInv-Keeps w w' (has_begun g) k h =
      (k.0 (version g) h.0, k.1 (version g) (Updating K L no_conditions cl name S) h.0 h.1)
  OperatorInv-Keeps w w' (has_written g) k h = tt

  -- A quiet call of the operator, whose next phase is as said.
  operator_call :
      (s : System C W V) (w' : W) (phase : Operator C)
      → IsQuiet s.api w'
      → OperatorInv w' phase
      → Inv s
      → Inv (record s { api = w'; operator = phase })
  operator_call s w' phase q o inv = record {
    synced = λ g e c. inv.synced g (q.old g e c) c;
    operator = o;
    gateway = GatewayInv-Quiet s.api w' s.host s.gateway q inv.gateway;
  }

  -- A quiet call of the gateway program.
  gateway_call :
      (s : System C W V) (w' : W) (phase : Reconciling C)
      → IsQuiet s.api w'
      → GatewayInv w' s.host phase
      → Inv s
      → Inv (record s { api = w'; gateway = phase })
  gateway_call s w' phase q o inv = record {
    synced = λ g e c. inv.synced g (q.old g e c) c;
    operator = OperatorInv-Keeps s.api w' s.operator (q.mono, q.still) inv.operator;
    gateway = o;
  }

  need_sync-not_checked : (g : Gateway C) → need_sync K g ≡ true → need_check_sync K g ≡ false
  unfolding need_sync need_check_sync
  need_sync-not_checked g h = ground (
    arith,
    L.true_lem rule_syncing g.status.conditions,
    L.false_lem rule_syncing g.status.conditions,
  )

  then_operator-Inv :
      (w : W) (phase : Gateway C → Operator C) (r : Result (Gateway C))
      → ((g : Gateway C) → r ≡ ok g → OperatorInv w (phase g))
      → OperatorInv w (then_operator phase r)
  then_operator-Inv w phase (ok g) h = h g refl
  then_operator-Inv w phase (err e) h = tt

  then_gateway-Inv :
      (w : W) (v : V) (phase : Gateway C → Reconciling C) (r : Result (Gateway C))
      → ((g : Gateway C) → r ≡ ok g → GatewayInv w v (phase g))
      → GatewayInv w v (then_gateway phase r)
  then_gateway-Inv w v phase (ok g) h = h g refl
  then_gateway-Inv w v phase (err e) h = tt

  then_applied-Inv :
      (w : W) (g : Gateway C) (from : V) (r : Result (Unit {0}) × V)
      → apply_iptables_rules K hosts ipt parse_ipv6 is_port_open g from ≡ r
      → Holds w g
      → GatewayInv w r.1 (then_applied g r.0)
  then_applied-Inv w g from (ok _, v) e h = (h, (from, g, refl, e))
  then_applied-Inv w g from (err x, v) e h = tt

  -- What `setSyncing` returns is the object that it was given but for its conditions.
  set_syncing-Holds :
      (w : W) (g g₁ : Gateway C)
      → Holds w g
      → (set_syncing K cl g w).0 ≡ ok g₁
      → Holds (set_syncing K cl g w).1 g₁
  unfolding set_syncing mark_syncing
  set_syncing-Holds w g g₁ h e =
      let w' = (set_syncing K cl g w).1 in
      let q = Quiet-set_syncing K L no_conditions cl name S g w in
      let same =
        sent_or_kept _ (cl.update_gateway_status (mark_syncing K g).0) (mark_syncing K g).0 w e in
      subst (Holds w') (sym same) (Holds-Quiet w w' g q h)

  get-Holds :
      (w : W) (g : Gateway C) → (cl.get_gateway name w).0 ≡ ok g → need_sync K g ≡ true → Holds w g
  get-Holds w g e n =
      let at = S.get_lem w g e in
      let only = λ (x : Gateway C) (ex : S.stored w ≡ some x).
        some-injective S.stored S.used (sym at ∙ ex) in
      (
        S.stored_used w g at,
        λ x ex ev. ap (λ (y : Gateway C). y.spec) (sym (only x ex)),
        λ x ex. ap (need_check_sync K) (sym (only x ex)) ∙ need_sync-not_checked g n,
      )

  finish-synced :
      (w : W) (v : V) (g : Gateway C)
      → Holds w g × Installed g v
      → ((x : Gateway C) → S.stored w ≡ some x → need_check_sync K x ≡ true → Installed x v)
      → Wrote S.stored S.used WritesStatus (mark_synced K g).0 w (set_synced K cl g w).1
      → (x : Gateway C) → S.stored (set_synced K cl g w).1 ≡ some x
      → need_check_sync K x ≡ true
      → Installed x v
  unfolding mark_synced
  finish-synced w v g (h, i) old (inl same) x e c = old x (sym same ∙ e) c
  finish-synced w v g (h, i) old (inr (before, after, a, parts)) x e c =
      let spec = sym (h.1 before a.found a.current) ∙ sym (parts.0) in
      Installed-spec g x v
        (spec ∙ ap (λ (y : Gateway C). y.spec) (some-injective S.stored S.used (sym a.stores ∙ e)))
        i

  Step-Inv :
      {s t : System C W V}
      → Step K no_conditions cl hosts ipt parse_ipv6 is_port_open name S s t
      → Inv s
      → Inv t
  unfolding set_gateway_rules
  Step-Inv (operator_reads g u still) inv = record {
    synced = inv.synced;
    operator = (u, still);
    gateway = inv.gateway;
  }
  Step-Inv {s} (operator_begins g e) inv =
      let (u, still) = subst (OperatorInv s.api) e inv.operator in
      let w' = (begin_gateway K no_conditions cl g s.api).1 in
      operator_call s w' _ (Quiet-begin_gateway K L no_conditions cl name S g s.api)
        (then_operator-Inv w' has_begun _
          (λ g₁ r. begin_gateway-Updating K L no_conditions cl name S g g₁ s.api u still r))
        inv
  Step-Inv {s} (operator_writes g fwds gw_ip e) inv =
      let (u, still) = subst (OperatorInv s.api) e inv.operator in
      let given = set_gateway_rules K no_conditions cl fwds gw_ip g in
      let w' = (cl.update_gateway given s.api).1 in
      operator_call s w' _ (Quiet-update K L no_conditions cl name S given s.api still)
        (then_operator-Inv w' has_written _ (λ g₁ r. tt)) inv
  Step-Inv {s} (operator_finishes g e) inv =
      operator_call s _ idle (Quiet-finish_gateway K L no_conditions cl name S g s.api) tt inv
  Step-Inv operator_stops inv = record { synced = inv.synced; operator = tt; gateway = inv.gateway }
  Step-Inv {s} (gateway_needs_sync g e n) inv =
      let q = Quiet-get K L no_conditions cl name S s.api in
      gateway_call s _ (needs_sync g) q (Holds-Quiet s.api _ g q (get-Holds s.api g e n)) inv
  Step-Inv {s} (gateway_needs_check g e n) inv =
      gateway_call s _ (needs_check g) (Quiet-get K L no_conditions cl name S s.api) tt inv
  Step-Inv {s} (gateway_finds_missing g e) inv =
      gateway_call s _ waiting (Quiet-set_syncing K L no_conditions cl name S g s.api) tt inv
  Step-Inv {s} (gateway_begins g e) inv =
      let h = subst (GatewayInv s.api s.host) e inv.gateway in
      let w' = (set_syncing K cl g s.api).1 in
      gateway_call s w' _ (Quiet-set_syncing K L no_conditions cl name S g s.api)
        (then_gateway-Inv w' s.host is_syncing _ (λ g₁ r. set_syncing-Holds s.api g g₁ h r)) inv
  Step-Inv {s} (gateway_applies g e) inv =
      let h = subst (GatewayInv s.api s.host) e inv.gateway in
      record {
        synced = λ x ex c. absurd (cc (h.2 x ex, c));
        operator = inv.operator;
        gateway = then_applied-Inv s.api g s.host _ refl h;
      }
  Step-Inv {s} (gateway_finishes g e) inv =
      let h = subst (GatewayInv s.api s.host) e inv.gateway in
      let w' = (set_synced K cl g s.api).1 in
      let wrote = set_synced-Wrote K L no_conditions cl name S g s.api in
      record {
        synced = finish-synced s.api s.host g h inv.synced wrote;
        operator =
            OperatorInv-Keeps s.api w' s.operator
              (
                set_synced-used K L no_conditions cl name S g s.api,
                λ v P u k.
                    IfStill-Wrote S.stored S.used WritesStatus (mark_synced K g).0 s.api w' v P u
                      wrote k,
              )
              inv.operator;
        gateway = tt;
      }
  Step-Inv gateway_stops inv = record { synced = inv.synced; operator = inv.operator; gateway = tt }

  Reach-Inv :
      {s t : System C W V}
      → Inv s
      → Reach K no_conditions cl hosts ipt parse_ipv6 is_port_open name S s t
      → Inv t
  Reach-Inv inv here = inv
  Reach-Inv inv (next r st) = Step-Inv st (Reach-Inv inv r)

  -- However the steps of the operator and of the gateway program interleave, from a state in which
  -- neither is in the middle of something and the stored gateway does not look synchronised:
  -- whenever the stored gateway is one whose rules are only checked, the iptables of the gateway
  -- node are as a successful `applyIptablesRules` for the rules stored in it left them.
  pub Reach-Installed :
      {s t : System C W V}
      → s.operator ≡ idle
      → s.gateway ≡ waiting
      → NotSynced s.api
      → Reach K no_conditions cl hosts ipt parse_ipv6 is_port_open name S s t
      → (g : Gateway C) → S.stored t.api ≡ some g
      → need_check_sync K g ≡ true
      → Installed g t.host
  Reach-Installed {s} o w n r =
      (Reach-Inv
        (record {
          synced = λ g e c. absurd (cc (n g e, c));
          operator = subst (OperatorInv s.api) (sym o) tt;
          gateway = subst (GatewayInv s.api s.host) (sym w) tt;
        })
        r).synced
