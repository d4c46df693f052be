-- ===== src/Forwarder/Rules/Keys.antt =====
-- Which tunnels and which redirections a forwarder's egress rules ask for.
use k8s_ext_connector.Prelude.{
  Text, Bool, true, Option, some, List, [], ◌∷◌, ◌==◌, eq_iff, eq_refl, ◌≡◌, ◌⊎◌, inl, inr, refl,
  ap, arith, Bool-cases, In,
}
use k8s_ext_connector.Prelude.Dict.{Dict, lookup, insert, has, lookup-insert}
use k8s_ext_connector.Exec.{ok}
use k8s_ext_connector.Api.{ForwarderRule, Forwarder}
use k8s_ext_connector.Iptables.{RuleSpec}
use k8s_ext_connector.Iptables.Match.{
  Packet, Redirects, first_match, dnat_each, first_match-dnat_each,
}
use k8s_ext_connector.Operator.Ports.Reuse.{LacksColon}
use k8s_ext_connector.Forwarder.Tunnels.{Tunnel, endpoint, to_tunnel}
use k8s_ext_connector.Forwarder.Tunnels.Split.{to_tunnel-tunnel_key}
use k8s_ext_connector.Forwarder.Rules.{
  ssh_port, egress_key, ingress_key, egress_keys, ingress_keys, prerouting, get_expected_ssh_tunnel,
  get_expected_remote_ssh_tunnel,
}

-- The fields of the keys hold no colon.
abbrev pub PlainRule : ForwarderRule → Type 0
PlainRule rule =
    LacksColon rule.relay_port
    × LacksColon rule.gateway_ip
    × LacksColon rule.destination_ip
    × LacksColon rule.destination_port

-- The tunnel of an egress rule.
abbrev pub egress_tunnel : Text → ForwarderRule → Tunnel
egress_tunnel ip rule = record {
  local_endpoint = endpoint ip rule.relay_port;
  server_endpoint = endpoint rule.gateway_ip ssh_port;
  remote_endpoint = endpoint rule.destination_ip rule.destination_port;
}

ssh_port-LacksColon : LacksColon ssh_port
unfolding ssh_port
ssh_port-LacksColon = ground arith

-- The key of an egress rule is read as its tunnel.
pub to_tunnel-egress_key :
    (ip : Text) (rule : ForwarderRule)
    → LacksColon ip
    → PlainRule rule
    → to_tunnel (egress_key ip rule) ≡ ok (egress_tunnel ip rule)
unfolding egress_key
to_tunnel-egress_key ip rule plain (port, gw, dst, dport) =
    to_tunnel-tunnel_key ip rule.relay_port rule.gateway_ip ssh_port rule.destination_ip
      rule.destination_port plain port gw ssh_port-LacksColon dst dport

-- The remote tunnel of an ingress rule.
abbrev pub ingress_tunnel : ForwarderRule → Tunnel
ingress_tunnel rule = record {
  local_endpoint = endpoint rule.destination_ip rule.destination_port;
  server_endpoint = endpoint rule.gateway_ip ssh_port;
  remote_endpoint = endpoint rule.gateway_ip rule.relay_port;
}

-- The key of an ingress rule is read as its remote tunnel.
pub to_tunnel-ingress_key :
    (rule : ForwarderRule)
    → PlainRule rule
    → to_tunnel (ingress_key rule) ≡ ok (ingress_tunnel rule)
unfolding ingress_key
to_tunnel-ingress_key rule (port, gw, dst, dport) =
    to_tunnel-tunnel_key rule.destination_ip rule.destination_port rule.gateway_ip ssh_port
      rule.gateway_ip rule.relay_port dst dport gw ssh_port-LacksColon gw port

-- `st[key(rule)] = true` for each rule.
each_key : (ForwarderRule → Text) → List ForwarderRule → Dict Bool → Dict Bool
each_key key [] st = st
each_key key (rule ∷ rules) st = each_key key rules (insert (key rule) true st)

egress_keys-each_key :
    (ip : Text) (rules : List ForwarderRule) (st : Dict Bool)
    → egress_keys ip rules st ≡ each_key (egress_key ip) rules st
unfolding egress_keys each_key
egress_keys-each_key ip [] st = refl
egress_keys-each_key ip (rule ∷ rules) st = egress_keys-each_key ip rules _

ingress_keys-each_key :
    (rules : List ForwarderRule) (st : Dict Bool)
    → ingress_keys rules st ≡ each_key ingress_key rules st
unfolding ingress_keys each_key
ingress_keys-each_key [] st = refl
ingress_keys-each_key (rule ∷ rules) st = ingress_keys-each_key rules _

module _ (key : ForwarderRule → Text) where
  each_key_keep :
      (rules : List ForwarderRule) (st : Dict Bool) (k : Text)
      → has k st ≡ true
      → has k (each_key key rules st) ≡ true
  unfolding each_key
  each_key_keep [] st k h = h
  each_key_keep (rule ∷ rules) st k h =
      each_key_keep rules (insert (key rule) true st) k
        (ground (arith, h, lookup-insert (key rule) k true st))

  each_key_complete :
      (rules : List ForwarderRule) (st : Dict Bool) (rule : ForwarderRule)
      → In rule rules
      → has (key rule) (each_key key rules st) ≡ true
  unfolding each_key
  each_key_complete [] st rule m = absurd m
  each_key_complete (r ∷ rules) st rule (inl e) =
      each_key_keep rules (insert (key r) true st) (key rule)
        (ground (arith, ap key e, eq_refl (key r), lookup-insert (key r) (key rule) true st))
  each_key_complete (r ∷ rules) st rule (inr m) = each_key_complete rules _ rule m

  each_key_sound :
      (rules : List ForwarderRule) (st : Dict Bool) (k : Text)
      → has k (each_key key rules st) ≡ true
      → ((rule : ForwarderRule) × In rule rules × (key rule ≡ k)) ⊎ (has k st ≡ true)
  unfolding each_key
  each_key_sound [] st k h = inr h
  each_key_sound (rule ∷ rules) st k h =
      elim (each_key_sound rules (insert (key rule) true st) k h) [
        | inl (r, m, e) ↦ inl (r, inr m, e)
        | inr e ↦ elim (Bool-cases (key rule == k)) [
          | inl same ↦ inl (rule, inl refl, (eq_iff (key rule) k).0 same)
          | inr other ↦ inr (ground (arith, e, other, lookup-insert (key rule) k true st))
        ]
      ]

module _ {C : Type 0} (fwd : Forwarder C) where
  -- Each egress rule asks for its tunnel.
  pub get_expected_ssh_tunnel_complete :
      (rule : ForwarderRule)
      → In rule fwd.spec.egress_rules
      → has (egress_key fwd.spec.forwarder_ip rule) (get_expected_ssh_tunnel fwd) ≡ true
  unfolding get_expected_ssh_tunnel
  get_expected_ssh_tunnel_complete rule m =
      rw (egress_keys-each_key fwd.spec.forwarder_ip fwd.spec.egress_rules [])
        (each_key_complete (egress_key fwd.spec.forwarder_ip) fwd.spec.egress_rules [] rule m)

  -- A tunnel is asked for by an egress rule.
  pub get_expected_ssh_tunnel_sound :
      (k : Text)
      → has k (get_expected_ssh_tunnel fwd) ≡ true
      → (rule : ForwarderRule) × In rule fwd.spec.egress_rules
        × (egress_key fwd.spec.forwarder_ip rule ≡ k)
  unfolding get_expected_ssh_tunnel lookup
  get_expected_ssh_tunnel_sound k h =
      let asked = (rw (egress_keys-each_key fwd.spec.forwarder_ip fwd.spec.egress_rules []) at h) in
      elim (each_key_sound (egress_key fwd.spec.forwarder_ip) fwd.spec.egress_rules [] k asked) [
        | inl r ↦ r
        | inr e ↦ absurd cc
      ]

  -- Each ingress rule asks for its remote tunnel.
  pub get_expected_remote_ssh_tunnel_complete :
      (rule : ForwarderRule)
      → In rule fwd.spec.ingress_rules
      → has (ingress_key rule) (get_expected_remote_ssh_tunnel fwd) ≡ true
  unfolding get_expected_remote_ssh_tunnel
  get_expected_remote_ssh_tunnel_complete rule m =
      rw (ingress_keys-each_key fwd.spec.ingress_rules [])
        (each_key_complete ingress_key fwd.spec.ingress_rules [] rule m)

prerouting-dnat_each :
    (ip : Text) (rules : List ForwarderRule)
    → prerouting ip rules
      ≡ dnat_each
          (λ rule. rule.source_ip)
          (λ rule. rule.target_port)
          (λ rule. rule.relay_port)
          ip
          rules
unfolding prerouting dnat_each
prerouting-dnat_each ip [] = refl
prerouting-dnat_each ip (rule ∷ rules) = rw (prerouting-dnat_each ip rules) refl

-- A packet of a rule's flow is sent to the relay port of a rule of that flow.
pub first_match-prerouting :
    (redirect : RuleSpec → Packet → Option Text) (L : Redirects redirect) (ip : Text)
    (rules : List ForwarderRule) (rule : ForwarderRule)
    → In rule rules
    → (r : ForwarderRule) × In r rules
      × (r.source_ip ≡ rule.source_ip)
      × (r.target_port ≡ rule.target_port)
      × (first_match redirect
            (record { src = rule.source_ip; dst = ip; dport = rule.target_port })
            (prerouting ip rules)
          ≡ some (endpoint ip r.relay_port))
first_match-prerouting redirect L ip rules rule m = rw (prerouting-dnat_each ip rules) (
    first_match-dnat_each (λ r. r.source_ip) (λ r. r.target_port) (λ r. r.relay_port) redirect L ip
      rules rule m)
