-- ===== src/Tests.antt =====
-- The theorems at concrete inputs, and small worlds in which their hypotheses hold.
mod Names
mod Ports
mod Tunnels
mod Chains
mod Loops
mod Egress
mod World
mod Handover
mod Gateways
mod Syncs
mod Queue
mod Table
mod Stored
mod Store
mod Refused
mod Cleanup
mod Versions
mod Protocol
mod Operator
mod Orders
mod Server
mod Routes
mod Copies
