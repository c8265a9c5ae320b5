-- ===== src/Lib.antt =====
-- The Lima kernel driver for Mali-400/450 on FreeBSD: a model of the driver, from its
-- memory management to the registers it writes, and the theorems that hold of it.
--
-- The program. lima_device.c brings the hardware up: power, the units in the order of a table, and the
-- two pipes (GP and PP) with their units. lima_drv.c takes the client's calls. lima_gem.c takes a job
-- from a client, with the buffers it uses, and lima_sched.c runs it on a pipe, whose callbacks
-- lima_gp.c and lima_pp.c fill with writes of registers; lima_ctx.c keeps the client's rendering
-- contexts. lima_vm.c gives each client an address space: a page directory and backing tables that the
-- Mali MMU walks, a range allocator (drm_mm), and the buffers mapped in it, each with a count of the
-- times it was added. drm/drm_gem_shmem_helper.c, with the pure part in drm/drm_gem_shmem_logic.h,
-- holds the pages of those buffers: it wires them when the first user comes (a pin, a user mapping, a
-- kernel mapping, a scatter table), counts the users, and gives the pages back after the last. The
-- address space takes the bus addresses that the scatter table lists.
--
-- The files.
--   Base: the names that all share. Base.Bits has the laws of `bit_or` that the table entries need.
--   Vm.Table: lima_vm_probe_pte, lima_vm_map_page, lima_vm_unmap_range (lima_vm.c). `map_page` is
--     find_bt, which allocates a backing table and enters it in the directory, then write_pte.
--     Below it: Geometry (indices), Mapping (words read and written), Walk (the MMU's view),
--     Unmap (the loop), Growth (tables only appear).
--   Vm.Mm: drm_mm as a record of operations, and the laws that the driver relies on.
--   Vm.Space: lima_vm_bo_find, bo_add, bo_del, get_va, map_bo. Below it: Pages (the loop over the
--     scatter table and its undoing), Vas (the buffer's list), Add, Del, Round (the round trip),
--     MapBo (the pages of a grown heap).
--   Vm.Life: lima_vm_create, lima_vm_release, lima_vm_get, lima_vm_put. Below it: Account (who holds
--     which coherent page).
--   Shmem.Logic: drm_gem_shmem_logic.h, whole. Shmem.Pages: the functions of the helper that take and
--     give back pages. Shmem.Object: the functions that count users. Shmem.Object.Counts: what a count
--     says of the pages. Shmem.Object.Machine: the functions as steps of a machine that also counts
--     what callers hold; Keep, Mappings and Tables show that each step keeps the invariant, Life draws
--     the conclusions for every history.
--   Shmem.Create: how an object comes to be and goes, dumb buffers (Dumb) and imports; Made says what a
--     creation leaves.
--   Gem.Handle: lima_gem_create_handle, whose Life composes the creation, the growth of a heap, the
--     pages and the table, and the end of an object; the checks of lima_gem_pin, _vmap and _mmap.
--   Ctx: lima_ctx.c. Ctx.Handles: the XArray as a record of operations with laws; Ctx.Refs: the count
--     of one context and its scheduler contexts; Ctx.Table: the calls on the handle table.
--   Sched.Dump: lima_sched_build_error_task_list (lima_sched.c, lima_dump.h). Below it: Layout (where
--     the bytes go), Account (the head of the list).
--   Gem.Submit: lima_gem_submit (lima_gem.c) with lima_sched_task_init, task_fini and free_job. Below
--     it: Loops (each loop, object by object), Balance (a submission), Ends (the end of a task).
--   Gem.Heap: lima_heap_alloc (lima_gem.c). Below it: Growth (sizes), Wires (the loop over the pages),
--     Calls (whole calls), Again (the loop over pages that are there), Count (the array's one user).
--   Platform: linux/platform_logic.h, whole, with Platform.Laws.
--   Platform.Irq: linux/platform_device.c, the interrupts and the resources of a device. Below it: Laws
--     (each call keeps the count of handlers), Life (from the attach to the detach).
--   Device: lima_device.c. Device.Ips: the table of units, their initialisation in its order and the
--     undoing of it; Device.Power: clocks, resets and the regulator; Device.Pipes: the wiring of the
--     GP pipe and the PP pipe, with Bounds (what fits the pipe's arrays); Device.Life: init, fini,
--     suspend and resume. Below it: Held (what a step leaves held), Up (bring-up), Sleep.
--   Sched.Pipe: the pipe machine of lima_sched.c (run_job, timedout_job, the end of a task, the recover
--     and error work, pipe_fini) over a record of the pipe's callbacks. Below it: Keep and Launch
--     (each operation keeps the counts), Teardown (histories, and the end of a pipe), Power (the
--     busy count).
--   Hw: a unit's registers as a log of what is written and an answer for each read of a register.
--     Hw.Pp: lima_pp.c, with Reg (where the registers are), Once (the broadcast interrupt), Writes and Room (what a frame fits in). Hw.Gp:
--     lima_gp.c, with Recovery (the growth of the heap after it ran out of memory). Hw.Mmu: lima_mmu.c;
--     Hw.L2: lima_l2_cache.c; Hw.Pmu: lima_pmu.c; each with Laws. Hw.Log: what a log of writes says.
--   Drv: lima_drv.c, the reads of the error state and the parameters. Drv.Reader: the sliced read of
--     the dump; Drv.Submit: the submit ioctl, which copies a job in and hands it to lima_gem.c.
--   The modules called Tests: the theorems at concrete inputs.
--
-- State and errors. A table is a function of the index, a C pointer that may be NULL an Option, an
-- errno result a Result; code that may follow NULL or loop for ever returns a Run. A u32 keeps its
-- wrap-around. Each function holds its lock from the first access to the last, so that a call is one
-- step. What other code answers (page and memory allocation, the bus addresses, the scatter table) is
-- an argument of the call or a field of the environment, and theorems hold for every answer.
--
-- Fuel. lima_vm_unmap_range is run with 2 ^ 20 + 1 rounds, one for each page of the 32-bit space and
-- one to see the end, which is enough for every range on which the loop ends. lima_sched_pipe_fini
-- waits at most 201 rounds, since the source gives up after 2000 ms in steps of 10. A poll of a
-- register takes its number of rounds, which the timeout leaves time for, as an argument; that of the
-- PMU has the 100 rounds of the source. No other code needs fuel.
--
-- Not modelled: the registry of devices, the DMA tags and the registration of drivers in
-- linux/platform_device.c, and the other FreeBSD shims; the slabs of lima_sched.c; the wait and the
-- query of lima_gem.c; the opening and closing of a file, attach and the sysctls of lima_drv.c; the
-- imported branch of the helper's mmap; debugging, tracing and all that only logs.
pub mod Base
pub mod Device
pub mod Hw
pub mod Drv
pub mod Vm
pub mod Ctx
pub mod Sched
pub mod Gem
pub mod Platform
pub mod Shmem
