-- ===== src/Squashfs/Metadata.antt =====
-- The metadata blocks of pkg/lib/squashfs/writer.go: compressMetadataBlocks, writeMetadataCached,
-- inodeRef and writeMetadataBlocksTracked, and how a reader follows a reference into a table.
use sandal.Prelude.{
  ℕ, zero, suc, ◌+◌, ◌*◌, ◌/◌, ◌%◌, Bool, true, false, Option, none, some, List, [], ◌∷◌, ◌++◌,
  length, take, drop, get_elem?, ltb, ◌==◌, if◌then◌else◌,
}
use sandal.Prelude.Words.{Bytes, u16, u64, le16}
use sandal.Squashfs.Writer.{Zlib, Writer, write_out}
use sandal.Squashfs.Reading.{joined}

abbrev pub metadata_block_size : ℕ
metadata_block_size = 8192

-- uint16(n) | metadataUncompBit
abbrev pub with_metadata_bit : ℕ → ℕ
with_metadata_bit n = if n / 32768 % 2 == 0 then n + 32768 else n

-- An entry of metadataCache.
pub record MetaBlock : Type 0 where
  pub offset : ℕ
  pub header : ℕ
  pub block : Bytes

module _ (z : Zlib) where
  -- The header and the bytes of a chunk.
  unfoldable pub meta_stored : Bool → Bytes → ℕ × Bytes
  meta_stored true c = (with_metadata_bit (u16 (length c)), c)
  meta_stored false c =
      let x = z.compress c in
      if ltb (length x) (length c)
      then (u16 (length x), x)
      else (with_metadata_bit (u16 (length c)), c)

  -- compressMetadataBlocks from the position `pos` of the table on; a round takes at least a byte.
  unfoldable pub meta_blocks : ℕ → Bool → ℕ → Bytes → List MetaBlock
  unfolding meta_stored
  meta_blocks zero fixed pos raw = []
  meta_blocks (suc fuel) fixed pos [] = []
  meta_blocks (suc fuel) fixed pos (x ∷ raw) =
      let m = meta_stored fixed (take metadata_block_size (x ∷ raw)) in
      record { offset = pos; header = m.0; block = m.1 }
      ∷ meta_blocks fuel fixed (pos + (2 + length m.1)) (drop metadata_block_size (x ∷ raw))

  unfoldable pub compress_metadata_blocks : Bytes → Bool → List MetaBlock
  unfolding meta_blocks
  compress_metadata_blocks raw fixed = meta_blocks (length raw) fixed 0 raw

  -- writeMetadataBlocksTracked: the blocks and where each is on the disk.
  unfoldable pub write_metadata_blocks_tracked : ℕ → Bytes → Writer → List ℕ × Writer
  unfolding meta_stored
  write_metadata_blocks_tracked zero raw w = ([], w)
  write_metadata_blocks_tracked (suc fuel) [] w = ([], w)
  write_metadata_blocks_tracked (suc fuel) (x ∷ raw) w =
      let m = meta_stored false (take metadata_block_size (x ∷ raw)) in
      let r =
        write_metadata_blocks_tracked fuel (drop metadata_block_size (x ∷ raw))
          (write_out m.1 (write_out (le16 m.0) w)) in
      (w.data_pos ∷ r.0, r.1)

  -- A reader of a table from the start of a block on: the contents of its blocks.
  unfoldable pub read_meta : ℕ → Bytes → Option Bytes
  read_meta fuel [] = some []
  read_meta zero (x ∷ b) = none
  read_meta (suc fuel) (x ∷ []) = none
  read_meta (suc fuel) (x ∷ y ∷ b) =
      let h = x + y * 256 in
      joined
        (if h / 32768 % 2 == 1
          then some (take (h % 32768) b)
          else z.decompress (take (h % 32768) b))
        (read_meta fuel (drop (h % 32768) b))

-- The bytes of writeMetadataCached.
unfoldable pub table_bytes : List MetaBlock → Bytes
table_bytes [] = []
table_bytes (m ∷ ms) = le16 m.header ++ (m.block ++ table_bytes ms)

-- writeMetadataCached: where the table begins.
unfoldable pub write_metadata_cached : List MetaBlock → Writer → ℕ × Writer
unfolding table_bytes
write_metadata_cached ms w = (w.data_pos, write_out (table_bytes ms) w)

abbrev pub ref_of : ℕ → Option ℕ → Option ℕ
ref_of pos none = none
ref_of pos (some o) = some (u64 (o * 65536 + pos % metadata_block_size))

-- inodeRef; an index behind the offsets panics.
unfoldable pub inode_ref : ℕ → List ℕ → Option ℕ
inode_ref pos offsets = ref_of pos (get_elem? offsets (pos / metadata_block_size))
