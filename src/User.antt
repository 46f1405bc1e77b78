-- ===== src/User.antt =====
-- The user programs and their library, in nikshita.dir/sbin.
pub mod Strings
pub mod Login
pub mod Input
pub mod Heap
pub mod Grep
mod Examples
