-- ===== src/Stream/Tcp.antt =====
-- The USB transport: what runtime/src/StreamingServer.cpp writes to a TCP socket and
-- NetworkReceiver.cpp reads from one. A stream socket is the bytes that come through it, and what
-- its calls return.
pub mod Socket
pub mod Record
pub mod Video
pub mod Frames
pub mod Played
