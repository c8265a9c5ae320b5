-- ===== src/Sched.antt =====
-- lima_sched.c: the back-end of the job scheduler.
pub mod Dump
pub mod Pipe
