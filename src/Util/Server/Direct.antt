-- ===== src/Util/Server/Direct.antt =====
-- What `DirectTCPIPHandler` of pkg/util/ssh.go does to its channel and its connection.
use k8s_ext_connector.Prelude.{
  Text, ℕ, ◌+◌, true, false, Option, List, [], ◌∷◌, ◌≡◌, inl, inr, refl, sym, ap, subst, Bool-cases,
  In,
}
use k8s_ext_connector.Prelude.Int.{pos}
use k8s_ext_connector.Exec.{Result, ok, err}
use k8s_ext_connector.Util.Decimal.{itoa}
use k8s_ext_connector.Util.HostPort.{join_host_port}
use k8s_ext_connector.Util.Ssh.{Handle, TcpAddr, to_tcp_addr}
use k8s_ext_connector.Util.Ssh.Held.{is_given}
use k8s_ext_connector.Util.Server.{
  Server, RejectionReason, prohibited, connection_failed, LocalForwardChannelData, Event, reject,
  dial, accept, close, discard_requests, copy_both, Host, is_allowed, accept_direct, dialed_direct,
  from_origin, handle_data, handle_direct_tcpip,
}

-- The answers to the channel: rejections, and acceptances that were tried.
abbrev pub answers : List Event → ℕ
answers [] = 0
answers (reject r ∷ events) = answers events + 1
answers (accept r ∷ events) = answers events + 1
answers (dial a d r ∷ events) = answers events
answers (close h ∷ events) = answers events
answers (discard_requests ∷ events) = answers events
answers (copy_both c h ∷ events) = answers events

-- How often the connection was opened by a dial.
abbrev pub opened : Handle → List Event → ℕ
opened h [] = 0
opened h (dial a d r ∷ events) = is_given h r + opened h events
opened h (reject r ∷ events) = opened h events
opened h (accept r ∷ events) = opened h events
opened h (close g ∷ events) = opened h events
opened h (discard_requests ∷ events) = opened h events
opened h (copy_both c g ∷ events) = opened h events

-- How often it was closed, or handed to the copies, which close it.
abbrev pub released : Handle → List Event → ℕ
released h [] = 0
released h (close g ∷ events) = is_given h (ok g) + released h events
released h (copy_both c g ∷ events) = is_given h (ok g) + released h events
released h (dial a d r ∷ events) = released h events
released h (reject r ∷ events) = released h events
released h (accept r ∷ events) = released h events
released h (discard_requests ∷ events) = released h events

module _ {E : Type 0} (host : Host E) (parse_ipv6 : Text → Option (List ℕ)) (srv : Server) where
  -- The dial is allowed, goes to the destination that the client asked for, and from the address
  -- that it gave as the origin.
  abbrev pub IsAsked : TcpAddr → Text → Type 0
  IsAsked laddr dest =
      (d : LocalForwardChannelData) × (host.extra_data ≡ ok d)
      × (is_allowed srv.local_port_forwarding_callback d ≡ true)
      × (dest ≡ join_host_port d.dest_addr (itoa (pos d.dest_port)))
      × (to_tcp_addr parse_ipv6 (join_host_port d.origin_addr (itoa (pos d.origin_port))) false
          ≡ ok laddr)

  pub record IsOrderly (events : List Event) : Type 0 where
    pub once : answers events ≡ 1
    pub balanced : (h : Handle) → opened h events ≡ released h events
    pub asked :
        (laddr : TcpAddr) (dest : Text) (r : Result Handle)
        → In (dial laddr dest r) events
        → IsAsked laddr dest
    pub joined :
        (ch : Handle) → In (accept (ok ch)) events → (conn : Handle) × In (copy_both ch conn) events

  -- A list whose head is the only dial is asked for if that dial is.
  abbrev NoDial : List Event → Type 0
  NoDial events = (l : TcpAddr) (d : Text) (r : Result Handle) → ¬ In (dial l d r) events

  IsAsked-head :
      (laddr : TcpAddr) (dest : Text) (res : Result Handle) (events : List Event)
      → NoDial events
      → IsAsked laddr dest
      → (l : TcpAddr) (d : Text) (r : Result Handle)
      → In (dial l d r) (dial laddr dest res ∷ events)
      → IsAsked l d
  IsAsked-head laddr dest res events none_there asks l d r (inl e) =
      let same_addr : l ≡ laddr = cc e in
      let same_dest : d ≡ dest = cc e in
      subst (λ x. IsAsked x d) (sym same_addr) (subst (λ x. IsAsked laddr x) (sym same_dest) asks)
  IsAsked-head laddr dest res events none_there asks l d r (inr m) = absurd (none_there l d r m)

  -- A rejection alone.
  rejected : (reason : RejectionReason) → IsOrderly (reject reason ∷ [])
  rejected reason = record {
    once = refl;
    balanced = λ h. refl;
    asked = λ l d r m. elim m [ inl e ↦ absurd cc | inr n ↦ absurd n ];
    joined = λ ch m. elim m [ inl e ↦ absurd cc | inr n ↦ absurd n ];
  }

  accept_direct-IsOrderly :
      (laddr : TcpAddr) (dest : Text) (dconn : Handle) (r : Result Handle × E)
      → IsAsked laddr dest
      → IsOrderly (dial laddr dest (ok dconn) ∷ (accept_direct host parse_ipv6 dconn r).0)
  unfolding accept_direct
  accept_direct-IsOrderly laddr dest dconn (err x, e) asks = record {
    once = refl;
    balanced = λ h. refl;
    asked =
        IsAsked-head laddr dest (ok dconn) (accept (err x) ∷ close dconn ∷ [])
          (λ l d r m. elim m [
            | inl h ↦ absurd cc
            | inr n ↦ elim n [ inl h ↦ absurd cc | inr k ↦ k ]
          ])
          asks;
    joined = λ ch m. elim m [
      | inl h ↦ absurd cc
      | inr n ↦ elim n [
        | inl h ↦ absurd cc
        | inr k ↦ elim k [ inl h ↦ absurd cc | inr z ↦ absurd z ]
      ]
    ];
  }
  accept_direct-IsOrderly laddr dest dconn (ok ch, e) asks = record {
    once = refl;
    balanced = λ h. refl;
    asked =
        IsAsked-head laddr dest (ok dconn)
          (accept (ok ch) ∷ discard_requests ∷ copy_both ch dconn ∷ [])
          (λ l d r m. elim m [
            | inl h ↦ absurd cc
            | inr n ↦ elim n [
              | inl h ↦ absurd cc
              | inr k ↦ elim k [ inl h ↦ absurd cc | inr z ↦ z ]
            ]
          ])
          asks;
    joined = λ c m. elim m [
      | inl h ↦ absurd cc
      | inr n ↦ elim n [
        | inl h ↦
            let same : c ≡ ch = cc h in
            (dconn, inr (inr (inr (inl (ap (λ x. copy_both x dconn) same)))))
        | inr k ↦ elim k [
          | inl h ↦ absurd cc
          | inr z ↦ elim z [ inl h ↦ absurd cc | inr y ↦ absurd y ]
        ]
      ]
    ];
  }

  dialed_direct-IsOrderly :
      (laddr : TcpAddr) (dest : Text) (r : Result Handle × E)
      → IsAsked laddr dest
      → IsOrderly (dialed_direct host parse_ipv6 laddr dest r).0
  unfolding dialed_direct
  dialed_direct-IsOrderly laddr dest (err x, e) asks = record {
    once = refl;
    balanced = λ h. refl;
    asked =
        IsAsked-head laddr dest (err x) (reject connection_failed ∷ [])
          (λ l d r m. elim m [ inl h ↦ absurd cc | inr n ↦ n ]) asks;
    joined = λ ch m. elim m [
      | inl h ↦ absurd cc
      | inr n ↦ elim n [ inl h ↦ absurd cc | inr k ↦ absurd k ]
    ];
  }
  dialed_direct-IsOrderly laddr dest (ok dconn, e) asks =
      accept_direct-IsOrderly laddr dest dconn (host.accept_channel e) asks

  from_origin-IsOrderly :
      (dest : Text) (r : Result TcpAddr) (e : E)
      → ((laddr : TcpAddr) → r ≡ ok laddr → IsAsked laddr dest)
      → IsOrderly (from_origin host parse_ipv6 dest r e).0
  unfolding from_origin
  from_origin-IsOrderly dest (err x) e asks = rejected prohibited
  from_origin-IsOrderly dest (ok laddr) e asks =
      dialed_direct-IsOrderly laddr dest (host.dial_context laddr dest e) (asks laddr refl)

  handle_data-IsOrderly :
      (r : Result LocalForwardChannelData) (e : E)
      → host.extra_data ≡ r
      → IsOrderly (handle_data host parse_ipv6 srv r e).0
  unfolding handle_data
  handle_data-IsOrderly (err x) e given = rejected connection_failed
  handle_data-IsOrderly (ok d) e given =
      elim (Bool-cases (is_allowed srv.local_port_forwarding_callback d)) [
        | inl allowed ↦
            rw allowed (from_origin-IsOrderly _ _ e (λ laddr read. (d, given, allowed, refl, read)))
        | inr refused ↦ rw refused (rejected prohibited)
      ]

  -- In one call, `DirectTCPIPHandler` rejects the channel or tries to accept it, once. It dials only
  -- the destination that the client asked for, only if the server's callback allows it, and from the
  -- origin that the client gave. Every connection that it opens it closes or hands to the two
  -- copies, as often as it opened it, and a channel that is accepted is handed to the copies.
  pub handle_direct_tcpip-IsOrderly :
      (e : E) → IsOrderly (handle_direct_tcpip host parse_ipv6 srv e).0
  unfolding handle_direct_tcpip
  handle_direct_tcpip-IsOrderly e = handle_data-IsOrderly host.extra_data e refl
