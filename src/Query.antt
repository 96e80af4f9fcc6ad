-- ===== src/Query.antt =====
-- query/query.go: the query tree and its rewriting.
pub mod Syntax
pub mod Meaning
pub mod Rewrite
pub mod Mapping
pub mod Expand
pub mod Parse
pub mod Translate
pub mod RegexpLanguage
pub mod TranslateLaws
