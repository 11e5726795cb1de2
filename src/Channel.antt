-- ===== src/Channel.antt =====
-- guest_vsock.py: requests to the guest's agent, and the wait for it.
pub mod Wire
pub mod Request
pub mod Wait
pub mod WaitLaws
pub mod BootLaws
pub mod Files
pub mod ReadLaws
pub mod Agent
pub mod Tests
