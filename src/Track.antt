-- ===== src/Track.antt =====
-- track.c: what is known of each aircraft, from the messages about it.
pub mod Validity
pub mod Integrity
pub mod Aircraft
pub mod Position
pub mod Locate
pub mod Versions
pub mod Motion
pub mod Fields
pub mod Update
pub mod Periodic
pub mod Keeps
pub mod Roster
pub mod Chain
pub mod Refine
pub mod Stages
pub mod Noise
pub mod Radius
mod Tests
