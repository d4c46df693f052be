-- ===== src/Util.antt =====
-- pkg/util: what the operator, the forwarder and the gateway share.
pub mod Decimal
pub mod Ip
pub mod Controller
pub mod HostPort
pub mod Ssh
pub mod Server
