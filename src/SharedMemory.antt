-- ===== src/SharedMemory.antt =====
-- shm_info.hpp and shm_info.cpp: the shared memory of the tool's environment.
pub mod Files
pub mod Scan
pub mod Visibility
