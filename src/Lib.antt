-- ===== src/Lib.antt =====
-- A model of the ROS driver for Ouster lidars, with what makes its data path and its connection
-- correct. Paths are from the repository's root.
--
-- The program. A node holds the connection to a sensor (src/os_sensor_nodelet.cpp) and publishes
-- its packets. A packet handler (src/lidar_packet_handler.h) batches lidar packets to scans, which
-- it writes in ten slots indexed by a lock-free ring (src/lock_free_ring_buffer.h); a second thread
-- takes the scans from the ring and gives them to the registered processors. A point cloud
-- processor, chosen by a factory (src/point_cloud_processor_factory.h), composes a cloud from a
-- scan (src/point_cloud_compose.h): it fills a point of a type that mirrors the profile of the
-- sensor (include/ouster_ros/sensor_point_types.h) and converts it to the type that the user asked
-- for (src/point_transform.h). Other processors make laser scans (src/laser_scan_processor.h,
-- src/os_ros.cpp) and images (src/image_processor.h); the cloud, driver and image nodes
-- (src/os_cloud_nodelet.cpp, src/os_driver_nodelet.cpp, src/os_image_nodelet.cpp) choose handlers
-- and processors by their parameters and publish what those make. A recording replaces the sensor in
-- src/os_pcap_nodelet.cpp, and its metadata file alone in src/os_replay_nodelet.cpp.
--
-- The files.
-- Prelude: the shared names; Boolean tests, lists over the native numbers, integers, 64-bit words.
-- Float: the operations of C++ floating-point types, arguments of the definitions that use them,
--   with no law assumed. Float.Whole replaces them by whole numbers in tests.
-- RingBuffer: LockFreeRingBuffer, with sums and differences modulo 2 ^ 64. Invariant has the bounds,
--   Refine the queue that the ring shows, Concurrent the interleavings of one writer and one reader,
--   where each load of the other thread's head is a step (sequentially consistent atomics).
-- Timestamps: ts_safe_offset_add and ulround of include/ouster_ros/os_ros.h.
-- LidarHandler: Sdk has what is used of the SDK, as a parameter; Interpolation the scan timestamps
--   (a failed assertion is `none`); Rgb the color stage; Handler the state, the accumulator and
--   process_scans, each one step, since it holds the lock of its slot. Handler.Queue, Process and
--   Order relate them to the queue of waiting scans. Create has the constructor's choices, Drain the
--   thread that takes scans until none waits, which takes as many turns as there are.
-- PointTypes: the point structures and the tables of scan fields as lists of members and types.
-- PointCloud: Factory the choice of types and tables; Point the copy of fields; Transform
--   `point::transform`; Compose `scan_to_cloud_f`, whose loop over rows has the height as fuel, one
--   turn for each row at most, enough since the row step is not 0; Accessors the elements of a point
--   by index and which of them compile (src/point_meta_helpers.h).
-- Files: a file system as a function of the path, which src/impl/file_util.cpp reads and writes.
-- OsSensor: the node's connection loop, and in Lifecycle its start, stop and reconnection. What the
--   network answers is an argument. A timer is the callback that it will call.
--   OsSensor.Config is the parsing of the parameters to a sensor configuration (Network, Timing and
--   Measuring by topic, Parse all of it, in the order of the source), whose texts are read by the SDK,
--   a parameter. Rule and Rules state it as a list of rules, Accepts as a table, Valid and
--   Unchecked its ranges; Client has the choice of client and the services. OsSensor.OnInit puts
--   the parsing and the start together, with the metadata that are cached, and SaveMetadata writes
--   them to a file. Buffers has the packets that are read and swapped in. OsSensor.Life runs a
--   node: the turns of its thread, its timer and its services are steps, in any order; Ends is
--   about a node that does not reconnect.
-- Ros: the parameter server, a parameter of whoever reads it.
-- Messages: Tokens the masks of processors, as bytes; Returns the channels of the second return; Imu
--   and Laser the messages, Laser.Processor the processor of laser scans with parse_version,
--   Telemetry the telemetry and the time of messages by mode.
-- Nodes: Handlers is `create_handlers` of the three nodes, with Created and Valid about it, where
--   what it finds (masks, a lidar mode, a type for the cloud) is an argument; Dispatch
--   their callbacks, where a lidar packet handler is an action and what processors make is an event;
--   Transforms the names of frames, and Broadcast the transforms that are sent; Publishers what each
--   node advertises and, in Node, its run; Replay the start of the nodes that replay; Playback the
--   packets of a recording.
-- Images: the images of a return, row by row, and in Create the sizes of their messages.
-- PointCloud.Project: `cartesianT`, the mask, and the loop of PointCloudProcessor over returns. What
--   Eigen makes of a product of arrays of two sizes depends on the build, and is an argument.
-- Modules named Tests hold runs on concrete values.
--
-- Bounds. The capacity of a ring is at most 2 ^ 63, above which an index and a count may wrap. A
-- conversion to an unsigned member keeps the low bits. The value of a floating-point operation is
-- the parameter's.
--
-- Not modelled: the creation and joining of threads, of which what a thread does is modelled; the wait
-- between the packets of a recording; printing and logging, which are I/O. Regular expressions,
-- std::to_string, rotations of tf2 and the SDK, PCL, OpenCV and ROS are no part of the repository:
-- what is used of them is an argument.
pub mod Prelude
pub mod Ros
pub mod RingBuffer
pub mod Float
pub mod Files
pub mod Timestamps
pub mod PointTypes
pub mod PointCloud
pub mod OsSensor
pub mod Messages
pub mod Nodes
pub mod Images
pub mod LidarHandler
