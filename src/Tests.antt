-- ===== src/Tests.antt =====
-- Runs at concrete inputs: the theorems applied where their conditions hold, and single results.
pub mod Sample
pub mod Requests
pub mod Packets
pub mod Calls
pub mod Setup
pub mod NodeBuffer
pub mod Delivery
pub mod Arrival
pub mod Feed
pub mod Link
pub mod Handshake
pub mod Node
pub mod Commands
