-- ===== src/Operator.antt =====
-- pkg/controller/externalservice: the operator.
pub mod Names
pub mod Ports
pub mod Resource
pub mod Rules
pub mod Update
pub mod Reconcile
pub mod Watch
