-- ===== src/Messages.antt =====
-- src/os_ros.cpp and the handlers that build on it: texts of parameters, and the messages that are made of packets and
-- scans.
pub mod Tokens
pub mod Returns
pub mod Imu
pub mod Laser
pub mod Telemetry
mod Tests
