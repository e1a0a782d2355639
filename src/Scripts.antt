-- ===== src/Scripts.antt =====
-- The pure parts of the scripts under scripts/.
mod Tests
pub mod Coverage
pub mod Dry
pub mod Literals
pub mod Shapes
pub mod Report
pub mod Mutation
