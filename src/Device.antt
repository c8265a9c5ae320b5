-- ===== src/Device.antt =====
-- lima_device.c: bring-up, teardown, suspend and resume.
pub mod Power
pub mod Ips
pub mod Pipes
pub mod Life
mod Tests
