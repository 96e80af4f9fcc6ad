-- ===== src/Builder.antt =====
-- indexbuilder.go: the postings, samples and sections that a shard is built from.
pub mod Map
pub mod Postings
pub mod PostingLaws
pub mod Occurrences
pub mod SampleLaws
pub mod OffsetTables
pub mod Indexing
pub mod Lookup
pub mod Apart
pub mod Document
pub mod Add
pub mod AddLaws
pub mod AddOutcome
pub mod AddIndexes
pub mod AddTables
pub mod CheckText
pub mod CheckLaws
pub mod Accepted
pub mod BranchMasks
pub mod Setup
