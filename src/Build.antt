-- ===== src/Build.antt =====
-- build/: from the output of ctags to the sections of a document.
pub mod Tags
pub mod TagLaws
pub mod TagSections
pub mod TagLines
pub mod TagRuns
