-- ===== src/Node.antt =====
-- c/org.chabu.node/src: the test node around the library. Builder is org/chabu, the classes that wrap a
-- connection of the library.
pub mod Builder
pub mod Session
pub mod Item
pub mod Commands
pub mod Lookup
pub mod Frame
