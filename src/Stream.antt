-- ===== src/Stream.antt =====
-- A frame on its way from the runtime to the headset: `Pieces` says what `SendNalUnit` sends.
pub mod Pieces
pub mod State
pub mod Scan
pub mod Hit
pub mod Steps
pub mod Parity
pub mod Recovered
pub mod Delivery
pub mod Loss
pub mod Loop
pub mod Transport
pub mod Frames
pub mod Sequence
pub mod Nack
pub mod Bounds
pub mod Tcp
