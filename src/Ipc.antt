-- ===== src/Ipc.antt =====
-- extension/sysvipc: the emulation of System V semaphores and message queues.
pub mod Object
pub mod Task
pub mod Semaphore
pub mod Queue
pub mod Waiting
