-- ===== src/Rgs.antt =====
-- server/rgs: the operator-facing layer over rounds, simulation, audit store and wallet.
pub mod Errors
pub mod Session
pub mod Wallet
pub mod Money
pub mod Manager
pub mod RoundBets
pub mod RoundRun
pub mod Api
