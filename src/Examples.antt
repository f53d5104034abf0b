-- ===== src/Examples.antt =====
-- Concrete runs of the theorems, for the relay and for the command-line tool.
mod Relays
mod Batches
mod Queue
mod Tools
mod Transfers
mod Deliveries
mod Cells
mod Daemons
mod Pipes
mod Servers
mod Clients
mod Doors
mod Updates
