-- ===== src/Forwarder/Rules/Total.antt =====
-- The keys that a forwarder's rules give are all read by `toTunnel`.
use k8s_ext_connector.Prelude.{
  Text, Bool, true, List, [], ◌∷◌, ◌++◌, ◌==◌, ◌≡◌, refl, arith, Bool-cases, inl, inr,
}
use k8s_ext_connector.Prelude.Dict.{Dict, insert, has}
use k8s_ext_connector.Exec.{ok}
use k8s_ext_connector.Api.{ForwarderRule, Forwarder}
use k8s_ext_connector.Forwarder.Rules.{
  ssh_port, egress_key, ingress_key, egress_keys, ingress_keys, get_expected_ssh_tunnel,
  get_expected_remote_ssh_tunnel,
}
use k8s_ext_connector.Forwarder.Tunnels.{
  Tunnel, TunnelEvent, to_tunnel, delete_unused, create_missing, add_all, ensure, update_tunnels,
}
use k8s_ext_connector.Forwarder.Tunnels.Split.{to_tunnel-tunnel_key_ok}

-- A key that `toTunnel` reads.
abbrev Reads : Text → Type 0
Reads k = (t : Tunnel) × (to_tunnel k ≡ ok t)

abbrev AllRead : Dict Bool → Type 0
AllRead [] = Unit
AllRead ((k, b) ∷ expected) = Reads k × AllRead expected

AllRead-insert :
    (k : Text) (b : Bool) (expected : Dict Bool)
    → Reads k
    → AllRead expected
    → AllRead (insert k b expected)
unfolding insert
AllRead-insert k b [] r h = (r, tt)
AllRead-insert k b ((j, c) ∷ expected) r h = elim (Bool-cases (j == k)) [
  | inl same ↦ rw same (r, h.1)
  | inr other ↦ rw other (h.0, AllRead-insert k b expected r h.1)
]

egress_keys-AllRead :
    (ip : Text) (rules : List ForwarderRule) (st : Dict Bool)
    → AllRead st
    → AllRead (egress_keys ip rules st)
unfolding egress_keys egress_key
egress_keys-AllRead ip [] st h = h
egress_keys-AllRead ip (rule ∷ rules) st h = egress_keys-AllRead ip rules _ (
    AllRead-insert _ true st
      (to_tunnel-tunnel_key_ok ip rule.relay_port rule.gateway_ip ssh_port rule.destination_ip
        rule.destination_port)
      h)

ingress_keys-AllRead :
    (rules : List ForwarderRule) (rt : Dict Bool) → AllRead rt → AllRead (ingress_keys rules rt)
unfolding ingress_keys ingress_key
ingress_keys-AllRead [] rt h = h
ingress_keys-AllRead (rule ∷ rules) rt h = ingress_keys-AllRead rules _ (
    AllRead-insert _ true rt
      (to_tunnel-tunnel_key_ok rule.destination_ip rule.destination_port rule.gateway_ip ssh_port
        rule.gateway_ip rule.relay_port)
      h)

create_missing_ok :
    (start : Tunnel → TunnelEvent) (tunnels : Dict Tunnel) (expected : Dict Bool)
    → AllRead expected
    → (r : Dict Tunnel × List TunnelEvent) × (create_missing start tunnels expected ≡ ok r)
unfolding create_missing
create_missing_ok start tunnels [] h = (_, refl)
create_missing_ok start tunnels ((k, b) ∷ expected) ((t, e), h) =
    let (r, went) = create_missing_ok start tunnels expected h in
    elim (Bool-cases (has k tunnels)) [
      | inl old ↦ (r, rw old went)
      | inr new ↦ (((k, t) ∷ r.0, start t ∷ r.1), ground (arith, new, e, went))
    ]

update_tunnels_ok :
    (start : Tunnel → TunnelEvent) (expected : Dict Bool) (tunnels : Dict Tunnel)
    → AllRead expected
    → (r : Dict Tunnel × List TunnelEvent) × (update_tunnels start expected tunnels ≡ ok r)
unfolding update_tunnels ensure
update_tunnels_ok start expected tunnels h =
    let (kept, cancelled) = delete_unused expected tunnels in
    let ((created, started), went) = create_missing_ok start kept expected h in
    ((add_all created kept, cancelled ++ started), rw went)

-- Whatever the rules of a forwarder hold, bringing its tunnels to them succeeds, for the tunnels of
-- its egress rules and for the remote ones of its ingress rules: no key makes `toTunnel` index out
-- of range.
pub update_tunnels-get_expected :
    {C : Type 0} (fwd : Forwarder C) (start : Tunnel → TunnelEvent) (tunnels : Dict Tunnel)
    → ((r : Dict Tunnel × List TunnelEvent) × (update_tunnels start
            (get_expected_ssh_tunnel fwd)
            tunnels
          ≡ ok r))
      × ((r : Dict Tunnel × List TunnelEvent) × (update_tunnels start
              (get_expected_remote_ssh_tunnel fwd)
              tunnels
            ≡ ok r))
unfolding get_expected_ssh_tunnel get_expected_remote_ssh_tunnel
update_tunnels-get_expected fwd start tunnels = (
  update_tunnels_ok start _ tunnels
      (egress_keys-AllRead fwd.spec.forwarder_ip fwd.spec.egress_rules [] tt),
  update_tunnels_ok start _ tunnels (ingress_keys-AllRead fwd.spec.ingress_rules [] tt),
)
