-- ===== src/Index.antt =====
-- section.go, toc.go, indexfile_linux.go, and what read.go and write.go do with the sections of an index.
pub mod Words
pub mod File
pub mod Section
pub mod Toc
pub mod WordLaws
pub mod Slices
pub mod Writing
pub mod RoundTrip
pub mod TocBytes
pub mod TocRoundTrip
pub mod Documents
pub mod Failures
pub mod DocumentLaws
