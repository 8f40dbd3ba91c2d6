-- ===== src/Treap.antt =====
-- treap.h and treap.cpp: a treap of at most 64 integers in an array of nodes.
pub mod State
pub mod Moves
pub mod Ops
pub mod Bulk
pub mod Shape
pub mod Wiring
pub mod Focus
pub mod RotateRight
pub mod RotateLeft
pub mod Heap
pub mod MoveUp
pub mod MoveNode
pub mod CutOff
pub mod RemoveAt
pub mod Remove
pub mod MoveDown
pub mod Values
pub mod Insert
pub mod Find
pub mod Model
pub mod Place
pub mod Sifting
pub mod Graft
pub mod Halves
pub mod Split
pub mod Merge
pub mod Joining
pub mod Merging
pub mod Transfer
pub mod Hang
pub mod BstInsert
mod Tests
mod Examples
pub mod Renaming
pub mod Weights
pub mod HeapOrder
pub mod Session
pub mod Sorting
pub mod Median
pub mod Balance
pub mod Range
pub mod Greatest
mod RoundTrip
mod Trials
mod Sessions
