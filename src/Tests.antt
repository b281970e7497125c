-- ===== src/Tests.antt =====
-- Runs of the model at concrete inputs, and the theorems at inputs that meet their hypotheses.
mod Platform
mod Rules
mod Delays
mod Notary
mod Bank
mod Disputes
mod Clocks
mod Filing
mod Portal
mod Ranges
