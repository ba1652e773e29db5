-- ===== src/Checks.antt =====
-- Runs of the model at concrete inputs.
mod Frames
mod Crypto
mod Ranging
mod Setup
mod Session
mod Transceiver
mod Sessions
mod Runs
mod Reporting
