-- ===== src/Tests.antt =====
-- Runs of the model on small inputs, and the theorems at inputs that meet their hypotheses.
mod Queries
mod Trees
mod Postings
mod Sections
mod Parsing
mod Files
mod Lines
mod Offsets
mod Building
mod Translating
mod Checking
mod Setups
mod Tagging
