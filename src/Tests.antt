-- ===== src/Tests.antt =====
-- Runs of the definitions on concrete inputs, and the theorems at inputs that meet their hypotheses.
mod Ids
mod Registries
mod Nodes
mod Peers
mod Deliveries
mod Initiators
mod Managers
mod Requests
mod Sessions
mod Exchanges
mod Stores
mod Wiring
mod Consumers
mod Backups
mod Workers
mod Signers
