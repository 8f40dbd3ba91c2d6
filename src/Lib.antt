-- ===== src/Lib.antt =====
-- The search trees of lock-free-search-tree. A treap is a set of at most 64 integers in an
-- array; a lock-free contention adapting tree has treaps in its base nodes, and splits and joins
-- them as threads get into each other's way; a second tree does the same under one lock.
--
-- Base holds the shared names: Boolean tests, lists, integers, what a C++ call can do (Outcome)
-- and sorted lists (Base/Sorted), which are the reference for the treaps, and how often a value
-- stands in a list (Base/Counts).
--
-- Treap is treap.h and treap.cpp. State has the array and its accesses with their bounds, Moves
-- the rotations, moveUp, moveDown, bstInsert and bstFind, Ops the operations on values, Bulk
-- transferNodesFrom, getMedianVal, merge and split. A method that changes the treap returns the
-- new one. The weights that the random engine draws are arguments. A loop has 66 rounds, one for
-- each of the 65 nodes of the array and one to stop. Shape, Wiring, Focus and Values relate the
-- array to a tree of indices with a hole at the node in focus; RotateRight, RotateLeft, MoveUp,
-- MoveDown, Sifting, MoveNode, Renaming, CutOff, Hang, BstInsert, Place, Find, Insert, RemoveAt,
-- Remove, Range, Greatest (getMaxValue) and Median are about the functions that they are named
-- for; Model has the predicate Represents, that a treap uses exactly its first nodes for a tree
-- whose values, from left to right, are a given sorted list, and Sound, that moreover all
-- weights are above that of the control node, as the bounds of the source's distribution make
-- them; Weights is about this. Heap has the order of the weights, that no node is lighter than
-- its parent, HeapOrder what insert and remove do to it, and Session sequences of calls. Graft,
-- Transfer and Halves are about transferNodesFrom and the treaps that it fills, Split and
-- Balance about split, Merge, Joining and Merging about merge, RoundTrip about both, Sorting
-- about std::sort.
--
-- Pool is preallocatable.h: the counter of a preallocated class, with its 32 bits.
--
-- Mrlock is mrlocktree.h and mrlocktree.cpp: each operation holds the lock from its first
-- statement to its end, so that operations are functions of the tree. The lock itself
-- (lib/mrlock) is the library of another project, and the pools are taken to be large enough.
-- Laws has the predicate Holds, that the tree holds given values in order along its routes, and
-- the search; Insert, Growth, Remove, Range and Destroy are about the operations that they are
-- named for; Refines has sequences of calls of insert, remove and lookup, and the set of
-- integers that they are measured by. Statements that need the values to be different say so.
--
-- Lfca is lfca.h and lfca.cpp. Memory has the nodes, the result sets and the shared memory, and
-- programs: trees of atomic steps, each of which changes the memory at once and goes on with
-- what it found, so that the steps of threads can be interleaved. Access has the loads, stores,
-- exchanges and allocations, Find the searches, Adapt the joins and splits, Range the range
-- queries and the help given to other threads, Update do_update and the public operations.
-- Threads has threads that call the public operations, and plays their steps in the order of a
-- schedule; Safety says what each step respects, with a module for each of the above. Layout
-- says which tree a memory holds. Lookup, Alone, Updating, Replace, Calm, Updated, Refines and
-- Construct are about one thread in a memory that no other thread changes: lookup, the steps,
-- one round of do_update, the tree with another base node, when no adaptation is due, the
-- updates, and the constructor. A copy of a node (node::New of a node) reads its fields in one
-- step. Loops have fuel, since other threads can make a path longer for ever; a run that uses it
-- up says so. The counters of the pools do not wrap around here, as they do in Pool: fewer than
-- 2^31 elements are asked for.
--
-- Not modelled: main.cpp, the tests, the build files, lib/mrlock and the abstract class of
-- searchtree.h.
pub mod Base
pub mod Treap
pub mod Pool
pub mod Mrlock
pub mod Lfca
