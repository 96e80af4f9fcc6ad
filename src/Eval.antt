-- ===== src/Eval.antt =====
-- eval.go: the evaluation of a query on one shard.
pub mod Gather
pub mod Shard
pub mod Search
