-- ===== src/Tracking.antt =====
-- runtime/src/TrackingReceiver.h and TrackingReceiver.cpp: the poses that the headset sends.
pub mod Packet
pub mod Predict
pub mod State
pub mod History
pub mod Agreement
