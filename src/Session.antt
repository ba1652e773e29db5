-- ===== src/Session.antt =====
-- src/session/RangingSession.cpp: the schedule of a session, the frames that open an exchange, and
-- the session itself.
pub mod Cycle
pub mod PrePoll
pub mod Schedule
pub mod SentFrames
pub mod State
pub mod Material
pub mod Listening
pub mod Exchange
pub mod FinalData
pub mod Control
pub mod Dispatch
pub mod Runs
