-- ===== src/Util.antt =====
-- packages/basics/util: containers and routines that the rest of the toolkit stands on.
pub mod Vector
pub mod HashKey
pub mod HashTable
pub mod OpenHash
pub mod Qsort
pub mod MinHeap
pub mod MfSet
pub mod MaxiphobicHeap
pub mod Binarizer
pub mod BinarySearch
pub mod CeilingPower
pub mod Context
pub mod StringQueue
pub mod Fifo
