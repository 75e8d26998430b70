-- ===== src/Nodes.antt =====
-- The nodes that make messages of packets: src/os_cloud_nodelet.cpp and src/os_driver_nodelet.cpp.
pub mod Handlers
pub mod Created
pub mod Valid
pub mod Dispatch
pub mod Transforms
pub mod Playback
pub mod Publishers
pub mod Replay
mod Tests
