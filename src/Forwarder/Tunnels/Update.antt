-- ===== src/Forwarder/Tunnels/Update.antt =====
-- What `updateSSHTunnel` and `updateRemoteSSHTunnel` leave in their map.
use k8s_ext_connector.Prelude.{
  Text, Bool, true, false, ◌&&◌, ◌||◌, not, Option, none, some, List, [], ◌∷◌, ◌==◌, eq_iff,
  eq_refl, ◌∙◌, ◌≡◌, refl, ap, subst, arith, Bool-cases, inl, inr, if◌then◌else◌,
}
use k8s_ext_connector.Prelude.Dict.{
  Dict, lookup, insert, remove, has, is_some, lookup-insert, lookup-remove,
}
use k8s_ext_connector.Exec.{ok, err, Result-cases}
use k8s_ext_connector.Forwarder.Tunnels.{
  Tunnel, TunnelEvent, to_tunnel, unused, delete_all, delete_unused, create_missing, add_all,
  ensure, update_tunnels, all_running,
}

member : Text → List Text → Bool
member k [] = false
member k (j ∷ l) = j == k || member k l

lookup-delete_all :
    (k : Text) (deleted : List Text) (tunnels : Dict Tunnel)
    → lookup k (delete_all deleted tunnels) ≡ (if member k deleted then none else lookup k tunnels)
unfolding delete_all member
lookup-delete_all k [] tunnels = refl
lookup-delete_all k (d ∷ deleted) tunnels =
    ground (arith, lookup-delete_all k deleted (remove d tunnels), lookup-remove d k tunnels)

member-unused :
    (k : Text) (expected : Dict Bool) (tunnels : Dict Tunnel)
    → member k (unused expected tunnels).0 ≡ (has k tunnels && not (has k expected))
unfolding member unused lookup
member-unused k expected [] = refl
member-unused k expected ((j, t) ∷ tunnels) =
    ground (arith, member-unused k expected tunnels, eq_iff j k)

-- Exactly the tunnels that are expected stay.
lookup-delete_unused :
    (k : Text) (expected : Dict Bool) (tunnels : Dict Tunnel)
    → lookup k (delete_unused expected tunnels).0
      ≡ (if has k expected then lookup k tunnels else none)
unfolding delete_unused
lookup-delete_unused k expected tunnels = ground (
  arith,
  lookup-delete_all k (unused expected tunnels).0 tunnels,
  member-unused k expected tunnels,
)

-- The tunnel that `toTunnel` makes of a key.
abbrev pub tunnel_of : Text → Option Tunnel
tunnel_of k = elim (to_tunnel k) [ ok t ↦ some t | err e ↦ none ]

-- Each key has its own tunnel.
abbrev Made : Dict Tunnel → Type 0
Made [] = Unit
Made ((k, t) ∷ created) = (tunnel_of k ≡ some t) × Made created

lookup-add_all :
    (k : Text) (created tunnels : Dict Tunnel)
    → Made created
    → lookup k (add_all created tunnels) ≡ (if has k created then tunnel_of k else lookup k tunnels)
unfolding add_all lookup
lookup-add_all k [] tunnels h = refl
lookup-add_all k ((j, t) ∷ created) tunnels h = ground (
  arith,
  h.0,
  ap tunnel_of,
  lookup-add_all k created (insert j t tunnels) h.1,
  lookup-insert j k t tunnels,
  eq_iff j k,
)

module _ (start : Tunnel → TunnelEvent) (tunnels : Dict Tunnel) where
  -- The keys that the loop takes in are those expected that have no tunnel.
  abbrev Missing : Dict Bool → Dict Tunnel → Type 0
  Missing expected created =
      Made created × ((k : Text) → has k created ≡ (has k expected && not (has k tunnels)))

  Missing-skip :
      (j : Text) (b : Bool) (expected : Dict Bool) (created : Dict Tunnel)
      → has j tunnels ≡ true
      → Missing expected created
      → Missing ((j, b) ∷ expected) created
  Missing-skip j b expected created old (made, keys) =
      (made, λ k. unfold lookup in ground (arith, keys k, eq_iff j k))

  Missing-make :
      (j : Text) (b : Bool) (expected : Dict Bool) (created : Dict Tunnel) (t : Tunnel)
      → has j tunnels ≡ false
      → to_tunnel j ≡ ok t
      → Missing expected created
      → Missing ((j, b) ∷ expected) ((j, t) ∷ created)
  Missing-make j b expected created t new e (made, keys) =
      ((rw (e, tunnel_of), made), λ k. unfold lookup in ground (arith, keys k, eq_iff j k))

  create_missing-Missing :
      (expected : Dict Bool) (created : Dict Tunnel) (events : List TunnelEvent)
      → create_missing start tunnels expected ≡ ok (created, events)
      → Missing expected created
  unfolding create_missing
  create_missing-Missing [] [] events h = (tt, λ k. unfold lookup in refl)
  create_missing-Missing [] (p ∷ created) events h = absurd (ground arith)
  create_missing-Missing ((j, b) ∷ expected) created events h = elim (Bool-cases (has j tunnels)) [
    | inl old ↦
        Missing-skip j b expected created old
          (create_missing-Missing expected created events (rw old at h))
    | inr new ↦ elim (Result-cases (to_tunnel j)) [
      | inr (e, bad) ↦ absurd (ground (arith, new, bad))
      | inl (t, made) ↦ elim (Result-cases (create_missing start tunnels expected)) [
        | inr (e, bad) ↦ absurd (ground (arith, new, made, bad))
        | inl ((rest, more), went) ↦
            let same : (j, t) ∷ rest ≡ created = ground (arith, new, made, went) in
            subst (Missing ((j, b) ∷ expected)) same (
              Missing-make j b expected rest t new made
                (create_missing-Missing expected rest more went))
      ]
    ]
  ]

-- After an update that succeeds the map holds exactly the expected keys: a tunnel that was there
-- stays, and a key that had none has the tunnel that `toTunnel` makes of it.
pub lookup-update_tunnels :
    (start : Tunnel → TunnelEvent) (expected : Dict Bool) (tunnels updated : Dict Tunnel)
    (events : List TunnelEvent)
    → update_tunnels start expected tunnels ≡ ok (updated, events)
    → (k : Text)
    → lookup k updated
      ≡ (if has k expected then (if has k tunnels then lookup k tunnels else tunnel_of k) else none)
unfolding update_tunnels ensure
lookup-update_tunnels start expected tunnels updated events h k =
    let kept = (delete_unused expected tunnels).0 in
    elim (Result-cases (create_missing start kept expected)) [
      | inr (e, bad) ↦ absurd (ground (arith, bad))
      | inl ((created, started), went) ↦
          let (made, keys) = create_missing-Missing start kept expected created started went in
          let same : add_all created kept ≡ updated = ground (arith, went) in
          rw (← same) (
            ground (
              arith,
              lookup-add_all k created kept made,
              keys k,
              lookup-delete_unused k expected tunnels,
            ))
    ]

Made-has :
    (k : Text) (created : Dict Tunnel)
    → Made created
    → has k created ≡ true
    → is_some (tunnel_of k) ≡ true
unfolding lookup
Made-has k [] m h = cc
Made-has k ((j, t) ∷ created) m h =
    ground (arith, m.0, ap tunnel_of, eq_iff j k, Made-has k created m.1)

-- The keys of the map after an update are the expected ones.
pub has-update_tunnels :
    (start : Tunnel → TunnelEvent) (expected : Dict Bool) (tunnels updated : Dict Tunnel)
    (events : List TunnelEvent)
    → update_tunnels start expected tunnels ≡ ok (updated, events)
    → (k : Text) → has k updated ≡ has k expected
unfolding update_tunnels ensure
has-update_tunnels start expected tunnels updated events h k =
    let kept = (delete_unused expected tunnels).0 in
    elim (Result-cases (create_missing start kept expected)) [
      | inr (e, bad) ↦ absurd (ground (arith, bad))
      | inl ((created, started), went) ↦
          let (made, keys) = create_missing-Missing start kept expected created started went in
          let same : add_all created kept ≡ updated = ground (arith, went) in
          rw (← same) (
            ground (
              arith,
              lookup-add_all k created kept made,
              keys k,
              Made-has k created made,
              lookup-delete_unused k expected tunnels,
            ))
    ]

all_running_of_has :
    (tunnels : Dict Tunnel) (expected : Dict Bool)
    → ((k : Text) → has k expected ≡ true → has k tunnels ≡ true)
    → all_running tunnels expected ≡ true
unfolding all_running
all_running_of_has tunnels [] h = refl
all_running_of_has tunnels ((j, b) ∷ expected) h =
    let here = h j (unfold lookup in ground (arith, eq_refl j)) in
    let rest =
      all_running_of_has tunnels expected λ k e. h k (unfold lookup in ground (arith, e)) in
    ground (arith, here, rest)

-- After an update that succeeds, the forwarder's check finds every expected tunnel running.
pub all_running-update_tunnels :
    (start : Tunnel → TunnelEvent) (expected : Dict Bool) (tunnels updated : Dict Tunnel)
    (events : List TunnelEvent)
    → update_tunnels start expected tunnels ≡ ok (updated, events)
    → all_running updated expected ≡ true
all_running-update_tunnels start expected tunnels updated events h =
    all_running_of_has updated expected
      λ k e. has-update_tunnels start expected tunnels updated events h k ∙ e
