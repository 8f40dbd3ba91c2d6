-- ===== src/Lfca.antt =====
-- lfca.h and lfca.cpp: the lock-free contention adapting search tree.
pub mod Memory
pub mod Access
pub mod Find
pub mod Adapt
pub mod Range
pub mod Update
mod Tests
pub mod Stats
pub mod Safety
pub mod Threads
pub mod Layout
mod Lookup
mod Replace
mod Alone
mod Updating
mod Calm
mod Updated
mod Construct
mod Refines
mod Trials
