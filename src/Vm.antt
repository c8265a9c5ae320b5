-- ===== src/Vm.antt =====
-- lima_vm.c and lima_vm.h: the GPU's address spaces.
pub mod Table
pub mod Mm
pub mod Space
pub mod Life
mod Tests
