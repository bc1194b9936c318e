-- ===== src/Tests.antt =====
-- The theorems at concrete inputs, a child for each part of the program.
mod Launches
mod Controls
mod Runs
mod Rules
mod Spawns
mod Reservations
mod Events
mod Gates
mod Cards
mod Liveness
mod Webhooks
mod Goals
mod Contexts
mod Jobs
mod Plans
