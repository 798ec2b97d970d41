-- ===== src/Login.antt =====
-- _backend/apps/api/src/wallet-auth.ts: the sign-in of a wallet. Limiter is the limiter of one
-- process, Store the tables with their statements, Service the class `WalletLogin`, Client the
-- identity of its callers, and Routes the handlers of `walletLoginRoutes`.
pub mod Limiter
pub mod Store
pub mod Service
pub mod Client
pub mod Routes
mod Tests
