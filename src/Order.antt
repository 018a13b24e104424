-- ===== src/Order.antt =====
-- The standard library's `Ord`, `sort` and `BinaryHeap`, over a strict total order.
pub mod Sort
pub mod Heap
pub mod Members
pub mod TopK
