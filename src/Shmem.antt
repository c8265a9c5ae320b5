-- ===== src/Shmem.antt =====
-- drm/drm_gem_shmem_logic.h and drm/drm_gem_shmem_helper.c: buffer objects backed by shared memory.
pub mod Logic
pub mod Pages
pub mod Object
pub mod Create
mod Tests
