-- ===== src/Tests.antt =====
-- Runs of the definitions, and each theorem at a concrete input.
mod Paths
mod Semaphores
mod Queues
mod Syscalls
mod Programs
mod Identifiers
mod Netlink
mod MetaFiles
