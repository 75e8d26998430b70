-- ===== src/PointCloud.antt =====
-- The point cloud path: src/point_cloud_processor_factory.h, src/point_cloud_compose.h, src/point_transform.h,
-- src/impl/cartesian.h, src/point_cloud_processor.h.
pub mod Factory
pub mod Point
pub mod Project
pub mod Transform
pub mod Compose
pub mod Processor
pub mod Accessors
mod Tests
