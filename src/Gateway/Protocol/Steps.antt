-- ===== src/Gateway/Protocol/Steps.antt =====
-- The steps of the operator and of the gateway program. A step makes at most one API call, or
-- applies the iptables rules.
use k8s_ext_connector.Prelude.{Text, ℕ, Bool, true, Option, List, ◌≡◌}
use k8s_ext_connector.Exec.{Result, ok}
use k8s_ext_connector.Api.{NamespacedName, Forwarder, Gateway}
use k8s_ext_connector.Api.Conditions.{Conditions}
use k8s_ext_connector.Api.Client.{Client}
use k8s_ext_connector.Iptables.{IptInterface}
use k8s_ext_connector.Operator.Update.{begin_gateway, set_gateway_rules, finish_gateway}
use k8s_ext_connector.Gateway.Status.{need_sync, need_check_sync, set_syncing, set_synced}
use k8s_ext_connector.Gateway.Reconcile.{apply_iptables_rules}
use k8s_ext_connector.Gateway.Protocol.Store.{VersionedStore, version, IfStill}

-- Where `updateRulesForOneGateway` stands, with the object that it holds.
pub data Operator (C : Type 0) : Type 0 where
  idle : Operator C
  has_read : Gateway C → Operator C
  has_begun : Gateway C → Operator C
  has_written : Gateway C → Operator C

-- Where the gateway program's `Reconcile` stands, with the object that it holds.
pub data Reconciling (C : Type 0) : Type 0 where
  waiting : Reconciling C
  needs_sync : Gateway C → Reconciling C
  needs_check : Gateway C → Reconciling C
  is_syncing : Gateway C → Reconciling C
  has_applied : Gateway C → Reconciling C

-- `api` is the API server, `host` the iptables of the gateway node.
pub record System (C W V : Type 0) : Type 0 where
  pub api : W
  pub host : V
  pub operator : Operator C
  pub gateway : Reconciling C

-- The phase after a call: the object that it returned, or the end of the attempt.
abbrev pub then_operator : {C : Type 0} → (Gateway C → Operator C) → Result (Gateway C) → Operator C
then_operator phase (ok g) = phase g
then_operator phase _ = Operator.idle

abbrev pub then_gateway :
    {C : Type 0} → (Gateway C → Reconciling C) → Result (Gateway C) → Reconciling C
then_gateway phase (ok g) = phase g
then_gateway phase _ = Reconciling.waiting

abbrev pub then_applied : {C : Type 0} → Gateway C → Result (Unit {0}) → Reconciling C
then_applied g (ok _) = Reconciling.has_applied g
then_applied g _ = Reconciling.waiting

-- `hosts` is a client that the calls of iptables do not use.
module _ {C W V : Type 0} (K : Conditions C) (no_conditions : C) (cl : Client C W)
    (hosts : Client C V) (ipt : IptInterface V) (parse_ipv6 : Text → Option (List ℕ))
    (is_port_open : Text → Text → V → Bool × V) (name : NamespacedName)
    (S : VersionedStore cl name) where
  pub data Step (s : System C W V) : System C W V → Type 0 where
    -- The operator reads through a cache, so what it reads was stored once.
    operator_reads :
        (g : Gateway C)
        → S.used s.api (version g)
        → IfStill S.stored S.used s.api (version g) (λ x. x ≡ g)
        → Step s (record s { operator = has_read g })
    operator_begins :
        (g : Gateway C)
        → s.operator ≡ has_read g
        → Step s (record s {
          api = (begin_gateway K no_conditions cl g s.api).1;
          operator = then_operator has_begun (begin_gateway K no_conditions cl g s.api).0;
        })
    operator_writes :
        (g : Gateway C) (fwds : List (Forwarder C)) (gw_ip : Text)
        → s.operator ≡ has_begun g
        → Step s (record s {
          api = (cl.update_gateway (set_gateway_rules K no_conditions cl fwds gw_ip g) s.api).1;
          operator =
              then_operator has_written
                (cl.update_gateway (set_gateway_rules K no_conditions cl fwds gw_ip g) s.api).0;
        })
    operator_finishes :
        (g : Gateway C)
        → s.operator ≡ has_written g
        → Step s (record s { api = (finish_gateway K no_conditions cl g s.api).1; operator = idle })
    -- The operator is restarted.
    operator_stops : Step s (record s { operator = idle })
    gateway_needs_sync :
        (g : Gateway C)
        → (cl.get_gateway name s.api).0 ≡ ok g
        → need_sync K g ≡ true
        → Step s (record s { api = (cl.get_gateway name s.api).1; gateway = needs_sync g })
    gateway_needs_check :
        (g : Gateway C)
        → (cl.get_gateway name s.api).0 ≡ ok g
        → need_check_sync K g ≡ true
        → Step s (record s { api = (cl.get_gateway name s.api).1; gateway = needs_check g })
    -- The rules were found missing.
    gateway_finds_missing :
        (g : Gateway C)
        → s.gateway ≡ needs_check g
        → Step s (record s { api = (set_syncing K cl g s.api).1; gateway = waiting })
    gateway_begins :
        (g : Gateway C)
        → s.gateway ≡ needs_sync g
        → Step s (record s {
          api = (set_syncing K cl g s.api).1;
          gateway = then_gateway is_syncing (set_syncing K cl g s.api).0;
        })
    gateway_applies :
        (g : Gateway C)
        → s.gateway ≡ is_syncing g
        → Step s (record s {
          host = (apply_iptables_rules K hosts ipt parse_ipv6 is_port_open g s.host).1;
          gateway =
              then_applied g (apply_iptables_rules K hosts ipt parse_ipv6 is_port_open g s.host).0;
        })
    gateway_finishes :
        (g : Gateway C)
        → s.gateway ≡ has_applied g
        → Step s (record s { api = (set_synced K cl g s.api).1; gateway = waiting })
    -- The gateway program is restarted.
    gateway_stops : Step s (record s { gateway = waiting })

  pub data Reach (s : System C W V) : System C W V → Type 0 where
    here : Reach s s
    next : {t u : System C W V} → Reach s t → Step t u → Reach s u
