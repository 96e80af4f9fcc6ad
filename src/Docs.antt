-- ===== src/Docs.antt =====
-- matchiter.go: from places in the concatenated content to documents.
pub mod FileIndex
pub mod Gallop
pub mod NgramIter
pub mod Candidates
pub mod NgramRounds
pub mod NgramHits
pub mod NgramLaws
pub mod Trim
pub mod Sections
