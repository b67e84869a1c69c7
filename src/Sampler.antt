-- ===== src/Sampler.antt =====
-- firmware/bsp_drivers/sampler.cpp: the sampling of the control pilot.
pub mod Ring
pub mod Device
pub mod Steps
pub mod Exclusion
pub mod Signal
pub mod Types
pub mod Failure
pub mod Window
