-- ===== src/Forwarder/Tunnels/Split.antt =====
-- What `toTunnel` reads from the keys that the forwarder builds.
use k8s_ext_connector.Prelude.{
  Text, suc, ◌≤◌, List, [], ◌∷◌, ◌++◌, append_assoc, append-nil, ◌≡◌, refl, arith, length,
}
use k8s_ext_connector.Exec.{ok}
use k8s_ext_connector.Operator.Ports.Reuse.{LacksColon}
use k8s_ext_connector.Forwarder.Rules.{tunnel_key}
use k8s_ext_connector.Forwarder.Tunnels.{Tunnel, split_colon, endpoint, endpoints, to_tunnel}

-- A part with no colon is read to the colon behind it.
split_colon-append :
    (part p rest : Text)
    → LacksColon p
    → split_colon part (p ++ b':' ∷ rest) ≡ (part ++ p) ∷ split_colon [] rest
unfolding split_colon
split_colon-append part [] rest h = rw append-nil
split_colon-append part (c ∷ p) rest h =
    ground
      (arith, h.0, split_colon-append (part ++ c ∷ []) p rest h.1, append_assoc part (c ∷ []) p)

split_colon_last : (part p : Text) → LacksColon p → split_colon part p ≡ (part ++ p) ∷ []
unfolding split_colon
split_colon_last part [] h = rw append-nil
split_colon_last part (c ∷ p) h =
    ground (arith, h.0, split_colon_last (part ++ c ∷ []) p h.1, append_assoc part (c ∷ []) p)

module _ (a b c d e f : Text) where
  -- A key whose six fields hold no colon is read back: the tunnel's endpoints are the first two, the
  -- middle two and the last two fields, each pair joined by a colon.
  pub to_tunnel-tunnel_key :
      LacksColon a
      → LacksColon b
      → LacksColon c
      → LacksColon d
      → LacksColon e
      → LacksColon f
      → to_tunnel (tunnel_key a b c d e f)
        ≡ ok (record {
          local_endpoint = endpoint a b;
          server_endpoint = endpoint c d;
          remote_endpoint = endpoint e f;
        })
  unfolding to_tunnel
  to_tunnel-tunnel_key ha hb hc hd he hf = rw (
    split_colon-append [] a _ ha,
    split_colon-append [] b _ hb,
    split_colon-append [] c _ hc,
    split_colon-append [] d _ hd,
    split_colon-append [] e _ he,
    split_colon_last [] f hf,
  )

-- A colon makes one part more.
length-split_colon :
    (part s rest : Text)
    → suc (length (split_colon [] rest)) ≤ length (split_colon part (s ++ b':' ∷ rest))
unfolding split_colon
length-split_colon part [] rest = ground arith
length-split_colon part (c ∷ s) rest =
    ground (arith, length-split_colon (part ++ c ∷ []) s rest, length-split_colon [] s rest)

length-split_colon_pos : (part s : Text) → 1 ≤ length (split_colon part s)
unfolding split_colon
length-split_colon_pos part [] = omega arith
length-split_colon_pos part (c ∷ s) = ground (arith, length-split_colon_pos (part ++ c ∷ []) s)

endpoints_ok : (parts : List Text) → 6 ≤ length parts → (t : Tunnel) × (endpoints parts ≡ ok t)
unfolding endpoints
endpoints_ok (a ∷ b ∷ c ∷ d ∷ e ∷ f ∷ rest) h = (_, refl)
endpoints_ok _ h = absurd (omega arith)

-- `toTunnel` never indexes out of range on a key of six fields, whatever they hold.
pub to_tunnel-tunnel_key_ok :
    (a b c d e f : Text) → (t : Tunnel) × (to_tunnel (tunnel_key a b c d e f) ≡ ok t)
unfolding to_tunnel
to_tunnel-tunnel_key_ok a b c d e f = endpoints_ok (split_colon [] (tunnel_key a b c d e f)) (
    omega (
      arith,
      length-split_colon [] a (b ++ b':' ∷ (c ++ b':' ∷ (d ++ b':' ∷ (e ++ b':' ∷ f)))),
      length-split_colon [] b (c ++ b':' ∷ (d ++ b':' ∷ (e ++ b':' ∷ f))),
      length-split_colon [] c (d ++ b':' ∷ (e ++ b':' ∷ f)),
      length-split_colon [] d (e ++ b':' ∷ f),
      length-split_colon [] e f,
      length-split_colon_pos [] f,
    ))
