-- ===== src/Tcb.antt =====
-- _backend/packages/core/src/tcb.ts and _backend/apps/api/src/tcb-lifecycle.ts: the versions of the
-- software that serves models, and which one of them is active.
pub mod Policy
pub mod Rows
pub mod Store
pub mod Single
pub mod Rules
pub mod Quote
pub mod Lifecycle
mod Tests
