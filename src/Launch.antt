-- ===== src/Launch.antt =====
-- vm_profile.py: the checks of a profile, QEMU's command line, and the launch.
pub mod HostData
pub mod HostDataLaws
pub mod Validate
pub mod Command
pub mod ValidateLaws
pub mod CommandLaws
pub mod Run
pub mod RunLaws
mod Tests
