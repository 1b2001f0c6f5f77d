-- ===== src/Syscalls.antt =====
-- The system calls of a tracee: their numbers (syscall/sysnum.c), the filter that the kernel is given
-- (syscall/seccomp.c), the heap (syscall/heap.c), chained calls (syscall/chain.c) and the emulation of
-- AF_NETLINK sockets (syscall/enter.c).
pub mod Sysnum
pub mod Seccomp
pub mod Heap
pub mod Chain
pub mod Netlink
