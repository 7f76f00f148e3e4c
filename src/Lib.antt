-- ===== src/Lib.antt =====
-- A model of the final version of the JOS kernel and file server (tp-parte4) and of the shell's parser
-- (shell), and what is proved of them.
--
-- The program. The kernel (kern/) manages physical pages by reference counts and a free list, builds
-- two-level page tables, keeps a table of 1024 environments (struct Env) that one processor runs in
-- turn, and serves the system calls with which environments start each other, map pages into each
-- other and send messages. The file server (fs/) is an environment that keeps a disk's blocks in a
-- cache and allocates them by a bitmap. lib/string.c is linked into both; lib/fd.c is a
-- program's side of open files and pipes.
--
-- The files, with paths below tp-parte4.
--   Errors, Layout   inc/error.h; the constants of inc/memlayout.h, inc/mmu.h, inc/env.h.
--   Memory           kern/pmap.c, kern/pmap.h: page_alloc, page_free, page_decref, pgdir_walk,
--                    page_lookup, page_insert, page_remove, tlb_invalidate. The state `Mem` has the
--                    fields of `pages`, the list's head, every word of every page, and the calls of
--                    invlpg. A pointer to a page, table or directory is a page number.
--     FreeList, DoubleFree, Walk, Remove, Insert, Fresh: its theorems, by function.
--     Memory/Boot    kern/pmap.c before the allocator runs: boot_alloc, page_init, boot_map_region,
--                    mmio_map_region.
--   Kernel           inc/env.h: the environments, `curenv`, cr3, and the memory. A function of the
--                    kernel gives a `Flow`: it returns, enters user mode, halts, stays in the monitor,
--                    or panics.
--   Kernel/Env       kern/env.c: envid2env, env_init, env_setup_vm, env_alloc, region_alloc, env_free,
--                    env_run.
--   Kernel/Sched     kern/sched.c: sched_yield, sched_halt; env_destroy of kern/env.c.
--   Kernel/UserMem   kern/pmap.c: user_mem_check, user_mem_assert.
--   Kernel/Syscall   kern/syscall.c: every system call; Syscall/Dispatch has the dispatcher, with the
--                    console's cons_getc and the frame in user memory as parameters.
--   Kernel/Trap      kern/trap.c: page_fault_handler, with the processor's store of the frame in user
--                    memory and cr2 as parameters; Trap/Dispatch has trap and trap_dispatch, with the
--                    drivers and the monitor as parameters, without what they do about other processors.
--   Fs               fs/bc.c: diskaddr, flush_block; fs/fs.c: the bitmap, file_block_walk,
--                    file_get_block, file_free_block, file_truncate_blocks, file_set_size, file_flush,
--                    fs_sync. The disk map is one store of words by block and index, so the super block,
--                    the bitmap, the files and the indirect blocks are parts of it.
--     Fs/Bytes       the bytes of the disk map, in its words.
--     Fs/Content     fs/fs.c: file_read, file_write; Content/Refinement has the sequence of bytes that
--                    they are calls of.
--     Fs/Dir         fs/fs.c: dir_lookup, dir_alloc_file, walk_path, file_create, file_open.
--     Fs/Server      fs/serv.c: the table of open files, the requests, and a turn of serve. What other
--                    environments and the kernel do to the pages they share with it is given.
--   Text             lib/string.c: the functions on strings; a pointer is the list of the bytes from it
--                    to the end of its object.
--     Text/Move      memset, memmove, memcpy, over the byte at each address.
--     Text/Numbers   strtol, and printnum of lib/printfmt.c; what printnum puts is a list of bytes.
--   Pipe             lib/pipe.c: devpipe_read and devpipe_write as steps between two accesses to the
--                    shared pipe, which a relation interleaves in any order; a call that has returned
--                    keeps its buffer.
--   Descriptor       lib/fd.c: the descriptors of a program, as pages that may be shared; the devices, the
--                    rest of the state and the kernel's answers to sys_page_map are parameters.
--     Sharing, Alloc, Reading, Writing: its theorems, by function.
--     Descriptor/Pipes  pipe and devpipe_close of lib/pipe.c, over the same state; Undo has what is left
--                    mapped.
--   File             lib/file.c, a device of lib/fd.c over the file server, and stat of lib/fd.c. What a
--                    program and the server share is one state: the page of a request, and the pages of
--                    the Fds, which the program's descriptors map. A call is one turn of the server.
--     Device, Stored one call on an open file; read, write and seek of what is stored in it.
--     Request, Open  the page of a request to open, and open.
--   Fork             lib/fork.c and set_pgfault_handler of lib/pgfault.c, over the page tables of all
--                    environments as one function to physical pages, so that pages are shared. The system
--                    calls are as an environment sees them; a page that is no longer mapped is not given
--                    out again. sys_exofork's result is a parameter. A store to a page that is not writable
--                    goes through what page_fault_handler of kern/trap.c asks for; a handler that is set is
--                    taken to be pgfault, which fork sets.
--     Perm, Private, Dup, Step, Loop, Fault, Stores, Stack, Child, Isolation: its theorems, in that order.
--   Spinlock         kern/spinlock.c: spin_lock and spin_unlock as steps of processors that a relation
--                    interleaves in any order, without the record of the call stack.
--   Shell            shell/ (beside tp-parte4): defs.h, types.h, createcmd.c, utils.c. A text is the list
--                    of its bytes, and the line's buffer the list of the bytes to its end.
--     Shell/Parse    shell/parsing.c: get_token, parse_redir_flow, parse_environ_var,
--                    expand_environ_var, parse_exec, parse_back, parse_cmd, parse_line. getenv and the
--                    status as sprintf writes it are parameters. Shell/Parse/Words says how a command is
--                    written, Shell/Parse/Lines how a line with pipes is.
--     Shell/Exec     shell/exec.c: get_environ_key, get_environ_value, set_environ_vars, with setenv as a
--                    parameter.
--   Common           the shared helpers: tests on numbers, point updates, lists, and the meaning of
--                    bit operations digit by digit (Common/Bits).
-- The modules called Tests apply the theorems to concrete states.
--
-- Bounds and rounds. uint32_t, uint16_t and int32_t arithmetic is written with `% 2 ^ w` where it can
-- wrap. A loop over a range is a recursion on the number of its turns, which the caller gives as the
-- source's bounds do (1024 environments, 1024 entries of a table, the blocks of the disk), so no loop
-- is cut short. File sizes are taken below 2 ^ 31 - 4096, where off_t does not wrap,
-- and so are the positions of a pipe; strtol gives `none` where its long overflows; objects do not reach past the end of the address space.
--
-- The theorems on the contents of files and on directories are about files whose blocks are direct.
-- printnum, parse_exec, file_read, file_write, walk_path and readn recur on a number of turns: the
-- number that is printed, the bytes of the text, the bytes to copy, those of the path, those that are
-- wanted; each turn makes it smaller. The bytes that the shell's parser reads outside an object, or
-- would write there, give `none`, and so do those of a request to the file server that does not fit
-- its page.
--
-- Not modelled. The kernel is modelled on one processor: its use of the big kernel lock, the
-- other processors and the scheduler's interleavings with them are not, nor are the drivers, ELF
-- loading, output by cprintf, the contents of the TLB, the demand paging of the block cache (a
-- block that is not cached reads as it is on the disk, and is not dirty), the rest of the user
-- library (lib/ipc.c, lib/spawn.c, lib/console.c, lib/syscall.c), the other clients of the file
-- server while a program's call is served, the shell's processes and built-in commands, the
-- programs of fork, and the earlier versions tp-parte1 to tp-parte3.
pub mod Common
pub mod Descriptor
pub mod Errors
pub mod File
pub mod Layout
pub mod Memory
pub mod Kernel
pub mod Fork
pub mod Fs
pub mod Pipe
pub mod Shell
pub mod Spinlock
pub mod Text
