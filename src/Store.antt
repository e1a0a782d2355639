-- ===== src/Store.antt =====
-- nadi/store.py, table by table. Each method holds the store's lock from its first statement to its
-- last, so that it is one step of the model.
pub mod Schema
pub mod Fixture
mod Tests
pub mod Sessions
pub mod Events
pub mod Commands
pub mod Hosts
pub mod Leases
pub mod Channels
pub mod Resources
pub mod Tokens
pub mod Audit
pub mod Invariant
pub mod Idle
pub mod Frames
pub mod Tenancy
pub mod WellFormed
pub mod Spent
