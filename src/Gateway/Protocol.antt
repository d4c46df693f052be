-- ===== src/Gateway/Protocol.antt =====
-- The operator and the gateway program on one Gateway resource at the same time, an API call at a
-- time: `updateRulesForOneGateway` of pkg/controller/externalservice/reconciler.go and `Reconcile`
-- of pkg/gateway/reconciler.go.
pub mod Store
pub mod Steps
pub mod Quiet
pub mod Safety
