-- ===== src/Tests.antt =====
-- Runs of the model at concrete inputs, and the theorems at inputs that meet their hypotheses.
mod Headers
mod Queues
mod Forks
mod LightClient
mod Restart
mod Reports
mod Sats
mod Mints
mod Client
mod Numbers
mod Balances
mod Texts
mod Moves
