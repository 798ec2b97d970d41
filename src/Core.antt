-- ===== src/Core.antt =====
-- _backend/packages/core/src: the parts that have no state.
pub mod Address
pub mod Scope
pub mod Fees
pub mod Mandate
mod Tests
