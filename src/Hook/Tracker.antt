-- ===== src/Hook/Tracker.antt =====
-- The threads of src/hook.cpp that share `overuse_trk_cmpl`: the thread in `cuLaunchKernel_prehook` that holds
-- `expiration_status_mutex`, and `wait_cuda_kernels`. A step is a critical section of `overuse_trk_mutex`, or
-- what stands between two of them.
pub mod Steps
pub mod Progress
pub mod Lost
