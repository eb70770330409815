-- ===== src/Xmit.antt =====
-- The transmit half of c/org.chabu/src/Chabu.c: the packets (Build), what is sent next (Prepare), and
-- how it goes to the network (Pending). A loop takes a number of rounds.
pub mod Build
pub mod Prepare
pub mod Pending
pub mod Carrier
pub mod Unread
pub mod Deliver
pub mod Count
pub mod Rounds
pub mod Padding
pub mod Written
pub mod Packets
pub mod Flow
pub mod Echo
