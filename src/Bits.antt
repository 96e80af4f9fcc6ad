-- ===== src/Bits.antt =====
-- bits.go: runes, n-grams, and the delta encoding of integer lists.
pub mod Utf8
pub mod RuneSize
pub mod Ngrams
pub mod NgramLaws
pub mod Fold
pub mod Deltas
pub mod DeltasLaws
