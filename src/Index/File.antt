-- ===== src/Index/File.antt =====
-- read.go and indexfile_linux.go: IndexFile, mmapedIndexFile and reader.
use zoekt_archived.Prelude.{
  ℕ, ◌+◌, ◌-◌, ◌%◌, ◌^◌, Bytes, Option, none, some, length, take, drop, ltb, if◌then◌else◌,
}
use zoekt_archived.Index.Words.{get_u32, get_u64}

-- A result, an error, or a panic on a slice out of bounds.
pub data Access (A : Type 0) : Type 0 where
  ok : A → Access A
  failed : Access A
  panicked : Access A

infixl 5 ◌>>=◌
abbrev pub ◌>>=◌ : {A B : Type 0} → Access A → (A → Access B) → Access B
ok a >>= f = f a
failed >>= f = failed
panicked >>= f = panicked

-- The interface IndexFile, less Close and Name.
pub record IndexFile : Type 0 where
  pub read : ℕ → ℕ → Access Bytes
  pub size : Access ℕ

-- mmapedIndexFile.Read. The test adds on uint32, and the slice then panics if the sum wraps around.
unfoldable pub mmaped_read : Bytes → ℕ → ℕ → Access Bytes
mmaped_read file off sz =
    let end = (off + sz) % 2 ^ 32 in
    if ltb (length file % 2 ^ 32) end
    then failed
    else if ltb end off
    then panicked
    else ok (take (end - off) (drop off file))

-- mmapedIndexFile: its data, rounded up to whole pages, and its size.
abbrev pub mmaped_file : Bytes → ℕ → IndexFile
mmaped_file content size = record { read = mmaped_read content; size = ok size }

-- binary.BigEndian.Uint32 and Uint64 on what was read.
abbrev pub word_of : Option (ℕ × Bytes) → Access ℕ
word_of none = panicked
word_of (some (n, rest)) = ok n

-- reader.U32 and reader.U64: the value, and the offset after it.
module _ (f : IndexFile) where
  unfoldable pub read_u32 : ℕ → Access (ℕ × ℕ)
  unfolding get_u32
  read_u32 off = do b ← f.read off 4; n ← word_of (get_u32 b); ok (n, (off + 4) % 2 ^ 32)

  unfoldable pub read_u64 : ℕ → Access (ℕ × ℕ)
  unfolding get_u64
  read_u64 off = do b ← f.read off 8; n ← word_of (get_u64 b); ok (n, (off + 8) % 2 ^ 32)
