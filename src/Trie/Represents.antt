-- ===== src/Trie/Represents.antt =====
-- What a node with hashes stands for, and that the operations on nodes follow the tree.
pub mod Defs
pub mod Children
pub mod Split
pub mod Read
pub mod Write
pub mod Collapse
pub mod Delete
