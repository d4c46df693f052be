-- ===== src/Forwarder.antt =====
-- pkg/forwarder: the reconciler that runs in a forwarder pod.
pub mod Status
pub mod Rules
pub mod Tunnels
pub mod Reconcile
