-- ===== src/Examples.antt =====
-- The theorems at concrete inputs, over a database in memory and small stand-ins for the libraries.
mod World
mod Libraries
mod Storage
mod Api
mod Parts
mod Accounts
mod Unfailing
mod Syncing
mod Start
mod Running
mod Adapters
mod Refreshing
