-- ===== src/Lib.antt =====
-- Verification of the C core of vm-forge: PRoot, under core/proot/src/main/cpp, which runs the programs
-- of a guest system and translates their system calls.
--
-- Parts. A program's path goes through path/path.c (translate_path), which joins it to a base,
-- canonicalizes it with path/canon.c and hands it to the bindings of path/binding.c. Two extensions
-- emulate parts of the kernel: extension/sysvipc the System V objects, extension/fake_id0 the user
-- and group identifiers of a fake root. The calls that PRoot and its extensions have to see are the ones
-- that syscall/seccomp.c builds a filter for; syscall/heap.c and syscall/chain.c replace a call by others,
-- and execve/shebang.c a script by its interpreter.
--
-- - Prelude: Boolean tests, lists over native numbers, C strings (Prelude.Bytes: a string is the list
--   of its bytes without the NUL, and reading behind its end gives 0), `|` of words (Prelude.Bits),
--   integers, and results (Prelude.Errors: a negative status is `err`, any other is `ok` with what
--   the function leaves in its buffers).
-- - FilePaths: Compare, Prefix, Join, Translate and Detranslate model path/path.c (compare_paths,
--   substitute_path_prefix, join_paths, translate_path, detranslate_path), Detranslate also
--   readlink_proc2 of path/proc.c and ProcLinks its readlink_proc; Component and Canon model
--   path/canon.c (next_component, pop_component, canonicalize); Binding and Insert model
--   path/binding.c. Canonical is the abstract view of a canonical path, a stack of components. Host is
--   what this code asks of the kernel and of code that is modelled apart: lstat(2), readlink(2), the
--   extensions' callbacks for HOST_PATH, the list of tracees and the glue of bindings. Every
--   definition takes it as a parameter.
-- - Ipc: Object models the identifiers and the lookup of extension/sysvipc/sysvipc_internal.h, Task the
--   tracees' configuration and sysvipc_wake_tracee, Semaphore and its child Control the four
--   system calls of extension/sysvipc/sysvipc_sem.c, Queue and its children Receive and Control those
--   of extension/sysvipc/sysvipc_msg.c with the retry of msgrcv(2). The state is passed on explicitly:
--   the tracees in the order of PRoot's list, and the array of sets or queues. Words are their bit
--   patterns. Waiting models the end of sysvipc_syscall_common and the events of sysvipc_callback in
--   extension/sysvipc/sysvipc.c, which
--   turn a call that waits into ppoll(2).
-- - FakeId: the macros of extension/fake_id0/fake_id0.c for set*id(2), and prctl(PR_SET_KEEPCAPS), as
--   system calls on the configuration of config.h. Helpers models extension/fake_id0/helper_functions.c: the
--   paths of meta files, the modes in them and the permissions of a process.
-- - Syscalls: Sysnum models syscall/sysnum.c, Seccomp syscall/seccomp.c: the merge of the lists of system
--   calls and the statements of the BPF program. Seccomp.Bpf is what the kernel does with a program, a
--   parameter with the documented behaviour of each statement. Heap models syscall/heap.c, the
--   emulation of brk(2), Chain syscall/chain.c, the calls that PRoot makes behind a tracee's own.
-- - Syscalls.Netlink: the emulation of AF_NETLINK sockets in syscall/enter.c and syscall/exit.c. Netlink has
--   the builders of messages (nl_build_link and the others), Request what a request asks for, Hosts and
--   HostAddrs the host's interfaces (build_host_links, build_host_addrs), Relay the host's routes, Reply
--   build_fake_netlink_reply, Sockets the table of descriptors and what is sent, Receive what is received.
--   A buffer is a list of bytes, and an access outside it the error `out_of_bounds`; what getifaddrs(3), the
--   ioctls and recv(2) give is the parameter Host, or the datagrams. The tracee's memory is what is read
--   of it, and a list of writes.
-- - Execve: Shebang and Expand model execve/shebang.c, extract_shebang() and expand_shebang(), with the
--   operations of execve/aoxp.c on the argument vector. The files, translate_and_check_exec() and the
--   tracee's memory are parameters (ExecHost).
-- - Tests: runs of the definitions, and the theorems at concrete inputs.
--
-- Bounds and fuel. PATH_MAX is 4096, NAME_MAX 255, MAXSYMLINKS 20. canonicalize() calls itself for a
-- symbolic link one level deeper or more, and is refused above MAXSYMLINKS: a depth of MAXSYMLINKS + 2
-- is enough. Its loop consumes the user's path: one round more than its length is enough. BINPRM_BUF_SIZE
-- is 256; expand_shebang() goes through MAXSYMLINKS scripts at most, which is its own limit. A chain of
-- system calls is run for one round more than it has calls. The loop over a request's attributes passes
-- over four bytes a round, that over a datagram's messages over sixteen: a round more than their length is
-- enough. recv(2) is called 64 times at most, which is the code's limit.
--
-- Not modelled. Assertions that no caller of the modelled code can break are left out, or are the
-- error `assertion`; a null pointer that is read is the error `null_pointer`. The assertion on named
-- file descriptors after a link was followed is left out. The cached length of a binding's path
-- is its strlen(). The buffer of a call that fails is not described where no code reads it.
-- Memory is never exhausted. The other extensions, shared memory, ptrace(2), the loading of ELF files, the
-- dispatch of system calls, the command line and the vendored talloc are not modelled.
pub mod Prelude
pub mod FilePaths
pub mod Ipc
pub mod FakeId
pub mod Syscalls
pub mod Execve
mod Tests
