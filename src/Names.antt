-- ===== src/Names.antt =====
-- src/ros_names.cpp: what the DDS names say in ROS terms.
pub mod Topics
pub mod Nodes
pub mod Actions
