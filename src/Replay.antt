-- ===== src/Replay.antt =====
-- tools/replay: the deterministic controller of the demonstration. A session plays the canonical
-- events of one day, stops at the human gate, and shows isolated proof branches.
pub mod Events
pub mod Frames
pub mod Binding
pub mod Session
pub mod Stream
