-- ===== src/Recv.antt =====
-- The receive half of c/org.chabu/src/Chabu.c, `handleReads`: its packets (Packet), the payload of a
-- SEQ packet (Payload) and the loop (Loop). One pass of the loop ends in a `Step`.
pub mod Packet
pub mod Payload
pub mod Source
pub mod Stream
pub mod Follow
pub mod Progress
pub mod Drops
pub mod Sinks
pub mod Passes
pub mod Fill
pub mod Received
pub mod Arrive
pub mod Passed
pub mod Settled
pub mod Whole
pub mod Loop
pub mod Arm
pub mod Seq
pub mod Pong
pub mod Setup
