-- ===== src/LidarHandler.antt =====
-- src/lidar_packet_handler.h: packets are batched into the scans of a ring, and a second thread
-- hands the finished scans on.
pub mod Sdk
pub mod Interpolation
pub mod Rgb
pub mod Handler
pub mod Create
pub mod Drain
mod Tests
