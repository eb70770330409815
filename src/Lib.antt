-- ===== src/Lib.antt =====
-- A model of the C implementation of the Chabu protocol (c/org.chabu): several logical channels over
-- one byte stream, each with flow control, and served by priority.
--
-- The parts and how they work together:
--   * Buffer: c/org.chabu/src/ChabuByteBuffer.c and the inline functions of Chabu.h. Writing does not
--     look at the limit, as in the source; only an access outside of the memory is a fault.
--   * Errors, Report: the error codes, the last error and the names (ChabuErrors.c).
--   * State: the structs of c/org.chabu/include/Chabu.h and the constants of ChabuInternal.h.
--   * World: the connection with the application; the registered callbacks are a parameter
--     (`Callbacks`), as they are not part of the library. A callback may change the connection.
--     Chabu_ReportError stands here.
--   * Priority: ChabuPriorities.c. setRequest and popNextRequestForLevel work on the entries and
--     one list; an entry is named by the number of its channel. Below it the abstract lists
--     (Chain, Select) and what the code does to them (Request, Pop, Turn, Level, Order, Stale,
--     Tangle).
--   * Channel: ChabuChannel.c, what the application calls to move and to read limits.
--   * Init: ChabuInit.c. Chabu_Init and Chabu_ConfigureChannel.
--   * Xmit: the transmit half of Chabu.c. Build lays out packets, Prepare is
--     prepareNextXmitState, Pending is writePendingXmitData and handleWrites, Chabu_StartPing and
--     Chabu_SetPongData. Carrier is the interface to the network and the application that Deliver,
--     Count, Rounds (the payload) and Padding, Written (the whole state) are stated over.
--   * Recv: the receive half of Chabu.c. Packet is the dispatch on complete packets, Payload the
--     payload and the padding of a SEQ packet, Loop the loop of handleReads and
--     Chabu_HandleNetwork. Source is the interface to the network and the application that
--     Fill, Received and Arrive (an incoming payload) and Passed, Settled, Whole (the whole state)
--     are stated over. Stream says that the network delivers finitely many bytes, Follow, Progress,
--     Drops and Sinks what the parts of a pass consume, Passes is the loop as a
--     relation. The walk of an ARM packet along a list of requests is a loop inside of a pass; where
--     it is given too few rounds for it the pass ends in the fault `no_rounds_left`.
--   * Nio: c/org.chabu.node/src/java/nio, the byte buffer of the C++ test node. Word has the unrolled
--     byte code of the methods once for each byte order, Number the methods. A C++ exception is a
--     fault `thrown`.
--   * Node: the classes of the C++ test node around the library (c/org.chabu.node/src). Builder is
--     org/chabu/ChabuBuilder.cpp with the constructor of Chabu.cpp and the commands of
--     network/SessionCtrl.cpp that reach it. Session is handleReceived of SessionCtrl.cpp, with a
--     parameter for the XML library; Frame is what it keeps of the bytes it received.
--     Item is the tree of parameters of testprot, Lookup what is found in it, and Commands is process
--     with the commands of the test director.
--   * Link: two ends of a connection during a payload, one that sends by writePendingXmitData and one
--     that takes it in by passes of handleReads, in any order of their steps. Carried is a log with a
--     payload in it, Ends what holds at either end, Delivery what comes out.
--   * Handshake: what the calls of the library, in any order, do to the state of the transmit half and
--     to what is known of the peer. Read and Reads are handleReads, Write the transmit half, Order
--     Chabu_HandleNetwork, Calls the calls of the application, Silence when nothing is sent.
--   * Tests: runs at concrete inputs.
--
-- Requests travel from Channel and Recv to the lists of Priority, and Xmit pops them where the last
-- packet has left; the buffers of State are filled and drained by Xmit, Recv and the callbacks.
--
-- Conventions: a function of the source keeps its name in snake case. A result is a `Run`: an access
-- out of an array, a NULL pointer and a failed assert are faults. int32 and uint32 are taken as 32
-- bits wide and int as wide enough for the sizes of buffers; sums of uint32 and uint64 wrap at
-- 2 ^ 32 and 2 ^ 64. The network is reached by callbacks that move the buffer that they are given.
-- Loops of the source have a number of rounds: a walk along a request list gets one more than there
-- are channels, which is enough for any well-formed list; the loop of handleReads gets its rounds as
-- an argument, one more than the bytes that can still come are enough, and so does handleWrites.
--
-- Not modelled: the user pointers, the text of error messages, the lock, the build options. The
-- Java and C# implementations and the unit tests are other programs. Of the test node
-- (c/org.chabu.node) sockets of boost, XML of pugixml and the listeners are left out.
-- The fields recv.limit of a channel and recv.seqBuffer of the connection are used by the source
-- and missing from Chabu.h; the model has them.
pub mod Prelude
pub mod Run
pub mod Common
pub mod Buffer
pub mod Errors
pub mod Report
pub mod State
pub mod Priority
pub mod World
pub mod Channel
pub mod Init
pub mod Xmit
pub mod Recv
pub mod Nio
pub mod Node
pub mod Link
pub mod Handshake
pub mod Tests
