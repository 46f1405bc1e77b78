-- ===== src/Kernel.antt =====
-- The kernel, in kernel.
pub mod Queue
pub mod Semaphore
pub mod Pipe
pub mod PhysMem
pub mod Process
pub mod BlockIo
pub mod Libk
pub mod Barrier
pub mod Future
pub mod Shared
pub mod File
pub mod Node
pub mod Ext2
pub mod Elf
pub mod Locks
pub mod Threads
pub mod Vmm
pub mod Exec
pub mod Sys
pub mod Execl
pub mod Cwd
pub mod Tasks
mod Examples
mod DiskExamples
mod SysExamples
mod ThreadExamples
mod ProgramExamples
mod MemoryExamples
mod CwdExamples
