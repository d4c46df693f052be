-- ===== src/Forwarder/Tunnels.antt =====
-- The tunnels that a forwarder keeps open (pkg/forwarder/reconciler.go): two maps from a tunnel's
-- key to the tunnel, and what the updates do to the tunnels themselves.
pub mod Split
pub mod Update
use k8s_ext_connector.Prelude.{Text, ℕ, zero, suc, Bool, List, [], ◌∷◌, ◌++◌, nat_eq, if◌then◌else◌}
use k8s_ext_connector.Prelude.Dict.{Dict, insert, remove, has}
use k8s_ext_connector.Exec.{Result, ok, err, bind_result, index_out_of_range}

-- `Tunnel` of pkg/util/ssh.go, without the client configuration that all share.
pub record Tunnel : Type 0 where
  pub local_endpoint : Text
  pub server_endpoint : Text
  pub remote_endpoint : Text

-- `Cancel()`, `ForwardNB()`, `RemoteForwardNB()`.
pub data TunnelEvent : Type 0 where
  cancel forward_nb remote_forward_nb : Tunnel → TunnelEvent

-- `strings.Split(s, ":")`; `part` is what was read of the current part.
split_colon : Text → Text → List Text
split_colon part [] = part ∷ []
split_colon part (c ∷ s) =
    let cut = part ∷ split_colon [] s in
    let more = split_colon (part ++ c ∷ []) s in if nat_eq c b':' then cut else more

unfoldable pub split : Text → List Text
unfolding split_colon
split s = split_colon [] s

abbrev pub endpoint : Text → Text → Text
endpoint ip port = ip ++ b':' ∷ port

-- The six parts that `toTunnel` reads; what follows them is not read.
endpoints : List Text → Result Tunnel
endpoints (a ∷ b ∷ c ∷ d ∷ e ∷ f ∷ rest) = ok (record {
  local_endpoint = endpoint a b;
  server_endpoint = endpoint c d;
  remote_endpoint = endpoint e f;
})
endpoints _ = err index_out_of_range

unfoldable pub to_tunnel : Text → Result Tunnel
unfolding split endpoints
to_tunnel tun = endpoints (split tun)

-- The keys of `tunnels` that are not expected, and the tunnels cancelled.
pub unused : Dict Bool → Dict Tunnel → List Text × List TunnelEvent
unused expected [] = ([], [])
unused expected ((k, tunnel) ∷ tunnels) =
    let (deleted, events) = unused expected tunnels in
    if has k expected then (deleted, events) else (k ∷ deleted, cancel tunnel ∷ events)

pub delete_all : List Text → Dict Tunnel → Dict Tunnel
delete_all [] tunnels = tunnels
delete_all (d ∷ deleted) tunnels = delete_all deleted (remove d tunnels)

-- `deleteUnusedSSHTunnel` and `deleteUnusedRemoteSSHTunnel`, each on its map.
pub delete_unused : Dict Bool → Dict Tunnel → Dict Tunnel × List TunnelEvent
unfolding unused delete_all
delete_unused expected tunnels =
    let (deleted, events) = unused expected tunnels in (delete_all deleted tunnels, events)

-- The tunnels made for the expected keys that `tunnels` lacks, with their starts.
unfoldable pub create_missing :
    (Tunnel → TunnelEvent) → Dict Tunnel → Dict Bool → Result (Dict Tunnel × List TunnelEvent)
create_missing start tunnels [] = ok ([], [])
create_missing start tunnels ((k, _) ∷ expected) =
    let skip = create_missing start tunnels expected in
    let make = bind_result (to_tunnel k) λ tunnel.
      bind_result (create_missing start tunnels expected)
        λ (created, events). ok ((k, tunnel) ∷ created, start tunnel ∷ events) in
    if has k tunnels then skip else make

pub add_all : Dict Tunnel → Dict Tunnel → Dict Tunnel
add_all [] tunnels = tunnels
add_all ((k, tunnel) ∷ created) tunnels = add_all created (insert k tunnel tunnels)

-- `ensureSSHTunnel` and `ensureRemoteSSHTunnel`.
unfoldable pub ensure :
    (Tunnel → TunnelEvent) → Dict Bool → Dict Tunnel → Result (Dict Tunnel × List TunnelEvent)
unfolding create_missing add_all
ensure start expected tunnels =
    bind_result (create_missing start tunnels expected)
      λ (created, events). ok (add_all created tunnels, events)

-- `updateSSHTunnel` and `updateRemoteSSHTunnel`.
unfoldable pub update_tunnels :
    (Tunnel → TunnelEvent) → Dict Bool → Dict Tunnel → Result (Dict Tunnel × List TunnelEvent)
unfolding delete_unused ensure
update_tunnels start expected tunnels =
    let (kept, cancelled) = delete_unused expected tunnels in
    bind_result (ensure start expected kept)
      λ (updated, started). ok (updated, cancelled ++ started)

-- The loops of `isTunnelRunning`.
unfoldable pub all_running : Dict Tunnel → Dict Bool → Bool
all_running tunnels [] = Bool.true
all_running tunnels ((k, _) ∷ expected) =
    let rest = all_running tunnels expected in if has k tunnels then rest else Bool.false
