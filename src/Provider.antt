-- ===== src/Provider.antt =====
-- contentprovider.go, with candidateMatch.line of matchiter.go: from matches in a document to lines.
pub mod Search
pub mod Line
pub mod LineWalk
pub mod LineLaws
pub mod Score
pub mod Offset
pub mod OffsetLaws
pub mod SliceLaws
pub mod SectionLaws
pub mod ScoreLaws
pub mod Fill
pub mod LineEnds
pub mod FillLaws
pub mod FillLines
