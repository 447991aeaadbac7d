-- ===== src/Lib.antt =====
-- OXRSys: an OpenXR runtime for macOS that streams its frames to a headset.
--
-- An application calls the runtime's OpenXR entry points; the runtime encodes the frames it submits and
-- sends them as UDP packets with parity packets (runtime/src/StreamingServer.cpp); the headset's client
-- puts the frames together again (clients/oxrsys-android/app/src/main/cpp/NetworkReceiver.cpp), recovers
-- a lost packet from the parity (clients/common/src/FecCodec.h) or asks for it again.
--
-- The files:
--   Base, Bytes: numbers, lists, options and exclusive or, as all parts use them.
--   Protocol: clients/common/src/Protocol.h, the constants and structs of the wire.
--   Fec: clients/common/src/FecCodec.h (Encode, Decode, GroupCount, GroupRange).
--   Sender: runtime/src/StreamingServer.cpp, SendNalUnit and HandleNackRequest.
--   Receiver: NetworkReceiver.cpp, ReassembleFrame, TryFecRecovery and SendNack.
--   Stream: what both ends do together. Pieces is the list of packets of a frame, State what the
--     pending frame holds, Scan and Hit one group of TryFecRecovery, Steps, Parity and Recovered one
--     packet, Delivery the bytes handed over, Loss the network, Loop all packets of a frame, Nack the
--     packets that are asked for again, Bounds packets in any order. Tcp is the USB transport: Socket
--     the calls on a stream socket, Record and Video what is written and read, Frames and Played
--     both ends.
--   Xr: the results, session states and struct types of OpenXR that the code names.
--   Swapchain: runtime/src/Swapchain.mm, AcquireImage, WaitImage and ReleaseImage (Order,
--     Invariant, Calls, and Queue, which is what the application sees).
--   Layers: runtime/src/Session.cpp, ValidateSwapchainSubImage, ValidateProjectionLayer and
--     ValidateQuadLayer (Bounds), and the texture views they retain (Balance).
--   Session: runtime/src/Session.cpp, the class Session: State, FrameLoop and Objects hold its
--     operations. Events is the life of a session as a graph and its calls, Invariant and Operations
--     what each call keeps, Lifecycle any sequence of calls, Leaving and Exit how a session ends,
--     Textures the views of EndFrame, Labels the debug labels.
--   Runtime: runtime/src/Runtime.cpp, handles and paths (Paths: a path stands for one string).
--   Server: runtime/src/StreamingServer.cpp, the frame that waits for the encoder (Conservation) and
--     the adaptive bitrate (Bitrate).
--   StatusText, Status: runtime/src/RuntimeStatus.cpp, the text of the status file and the operations
--     that write it (Json, Numbers: a reader, Published: what it gets).
--   Config: runtime/src/Config.cpp. Setting is the parser (Lines: what a line means, Ranges: the values,
--     Print: a file that is written and read), Reload when the file is read again (Current).
--   Actions: runtime/src/ActionSet.cpp and the calls on actions of runtime/src/EntryPoint.cpp: Strings,
--     State (Data, Objects), Bindings, Aggregation, Sync (Fold, Told, Values, Pressed) and Query;
--     Calls is a run of them, Memory the pointers from actions to sets, Names their names, Attached what an
--     attachment fixes.
--   Tracking: runtime/src/TrackingReceiver.cpp. Packet is the packet and the operations of glm, Predict
--     the prediction, State the class, History any calls of it, Agreement the two ways to read it.
--   Instance: runtime/src/Instance.cpp (Queue: the events, Names: the debug names, Enumerations).
--   Examples: runs at concrete inputs.
--
-- The session validates the layers of a frame (Layers) against its swapchains (Swapchain) and hands the
-- textures to the streaming server (Server), whose encoder's output the sender cuts into packets.
--
-- Loops are structural recursion on the number of rounds that are left, which is the bound the source
-- has, so no fuel can run out. Machine words keep their wrap-around (u16, u32). Where ReassembleFrame
-- stores a packet, an access behind the end of a vector is a result of its own (none). The accesses of
-- TryFecRecovery, SendNack and the delivery have no such result: their loops stay below the packet and
-- group counts of the frame, which are the sizes of the vectors. Sockets and callbacks are lists of
-- what goes out. Times are numbers without a bound, where the source has int64_t.
--
-- Floating-point numbers are opaque: their operations, tests and printed texts are parameters or
-- arguments.
--
-- Not modelled: Metal, Vulkan and video encoding, the threads and their locks (an operation is one
-- step), the other entry points, the poses of InputManager and Space, and the Swift and Java clients.
pub mod Base
pub mod Bytes
pub mod Protocol
pub mod Fec
pub mod Sender
pub mod Receiver
pub mod Stream
pub mod Xr
pub mod Swapchain
pub mod Layers
pub mod Session
pub mod Runtime
pub mod Instance
pub mod Server
pub mod Actions
pub mod Config
pub mod Status
pub mod StatusText
pub mod Tracking
pub mod Examples
