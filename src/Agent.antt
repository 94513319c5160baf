-- ===== src/Agent.antt =====
-- agent: the parts of the endpoint agent that keep a state of their own.
pub mod FileIntegrity
pub mod Hashing
pub mod Crypto
pub mod Monitors
pub mod Tamper
pub mod Detector
pub mod Loops
pub mod Installer
pub mod Sender
pub mod Quarantine
pub mod Firewall
