-- ===== src/Lsm.antt =====
-- src/lsm_tree: items, what a merge function returns, and merging an item into a mutable layer.
pub mod Types
pub mod MergeInto
pub mod Layer
pub mod Merger
pub mod Query
