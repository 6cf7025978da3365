-- ===== src/Examples.antt =====
-- Runs of the model at concrete inputs.
mod Data
mod Signing
mod Lanes
mod Tokens
mod Devices
mod Stores
mod Admission
mod Runs
mod Starts
mod Issuers
