-- ===== src/Tests.antt =====
-- Runs of the model, and each theorem applied to one of them.
mod Data
mod Worlds
mod Claims
mod Fronts
mod Handlers
mod Rules
mod Reads
mod Settings
mod Upkeep
mod Flows
mod Oracles
mod Resources
mod Archives
mod Starts
mod Scrapes
