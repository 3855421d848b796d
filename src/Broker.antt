-- ===== src/Broker.antt =====
-- The capability broker: app/sidecar/broker and its contract, app/src/contracts/broker.ts.
pub mod Contract
pub mod Policy
pub mod Vault
pub mod Audit
pub mod Chokepoint
