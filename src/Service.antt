-- ===== src/Service.antt =====
-- `class UnlockService` of listener.py. A coroutine is cut at its awaits on the peer and on the
-- broker: each piece runs without interruption, at one reading of the clock, and takes what the
-- await brought. Pieces of different connections interleave in any order.
pub mod State
pub mod Challenge
pub mod Messages
pub mod Session
pub mod Replay
pub mod Start
pub mod Stop
pub mod Pam
pub mod Connections
pub mod Promise
pub mod Unrecorded
