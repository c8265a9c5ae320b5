-- ===== src/Hw/Pp/Reg.antt =====
-- The registers of a pixel processor (lima_regs.h).
use lima_freebsd.Base.{ℕ}

abbrev pub frame : ℕ
frame = 0x0000

abbrev pub stack : ℕ
stack = 0x0030

abbrev pub status : ℕ
status = 0x1008

abbrev pub ctrl : ℕ
ctrl = 0x100c

abbrev pub int_rawstat : ℕ
int_rawstat = 0x1020

abbrev pub int_clear : ℕ
int_clear = 0x1024

abbrev pub int_mask : ℕ
int_mask = 0x1028

abbrev pub int_status : ℕ
int_status = 0x102c

abbrev pub perf_cnt_0_limit : ℕ
perf_cnt_0_limit = 0x1088
