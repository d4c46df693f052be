-- ===== src/Gateway.antt =====
-- pkg/gateway: the reconciler that runs on the gateway node.
pub mod Status
pub mod Rules
pub mod Reconcile
pub mod Protocol
