-- ===== src/Squashfs/Writer.antt =====
-- File data in a squashfs image: the blocks, the fragments and the tables of inode numbers and
-- owners of pkg/lib/squashfs/writer.go. Package compress/zlib is a parameter; the output file is
-- the bytes behind the superblock, and its writes do not fail.
use sandal.Prelude.{
  ℕ, zero, suc, ◌+◌, ◌-◌, ◌/◌, ◌%◌, ◌≡◌, ◌&&◌, Option, none, some, List, [], ◌∷◌, ◌++◌, length,
  take, drop, ltb, leb, ◌==◌, if◌then◌else◌,
}
use sandal.Prelude.Words.{Bytes, u16, u32}

-- What zlib.Writer makes of a text, and what a reader makes of that.
pub record Zlib : Type 0 where
  pub compress : Bytes → Bytes
  pub decompress : Bytes → Option Bytes

-- The documentation of compress/zlib: a reader gives back what was written.
pub record IsZlib (z : Zlib) : Type 0 where
  pub decompress-compress : (b : Bytes) → z.decompress (z.compress b) ≡ some b

pub record Fragment : Type 0 where
  pub start : ℕ
  pub size : ℕ

pub record Writer : Type 0 where
  pub block_size : ℕ
  pub next_inode : ℕ
  pub id_table : List ℕ
  pub id_map : List (ℕ × ℕ)
  pub inode_raw : Bytes
  pub dir_raw : Bytes
  pub inode_pos : List (ℕ × ℕ)
  -- dirEntryFixups, their offset and inode number, and dirInodeFixups, their offset and position.
  pub dir_entry_fixups : List (ℕ × ℕ)
  pub dir_inode_fixups : List (ℕ × ℕ)
  pub fragments : List Fragment
  pub frag_buf : Bytes
  pub out : Bytes
  pub data_pos : ℕ

-- SquashfsHeaderSize, metadataUncompBit and dataUncompBit.
abbrev pub header_size : ℕ
header_size = 96

abbrev pub metadata_uncomp_bit : ℕ
metadata_uncomp_bit = 32768

abbrev pub data_uncomp_bit : ℕ
data_uncomp_bit = 16777216

-- n | dataUncompBit
abbrev pub with_data_bit : ℕ → ℕ
with_data_bit n = if n / 16777216 % 2 == 0 then n + 16777216 else n

-- NewWriter, after its options.
unfoldable pub new_writer : ℕ → Writer
new_writer block_size = record {
  block_size = block_size;
  next_inode = 1;
  id_table = [];
  id_map = [];
  inode_raw = [];
  dir_raw = [];
  inode_pos = [];
  dir_entry_fixups = [];
  dir_inode_fixups = [];
  fragments = [];
  frag_buf = [];
  out = [];
  data_pos = header_size;
}

unfoldable pub alloc_inode : Writer → ℕ × Writer
alloc_inode w = (w.next_inode, record w { next_inode = u32 (w.next_inode + 1) })

abbrev pub lookup_key : ℕ → List (ℕ × ℕ) → Option ℕ
lookup_key k [] = none
lookup_key k ((i, v) ∷ m) = if i == k then some v else lookup_key k m

abbrev known_id : Option ℕ → ℕ → Writer → ℕ × Writer
known_id (some i) id w = (i, w)
known_id none id w =
    let i : ℕ = u16 (length w.id_table) in
    (i, record w { id_table = w.id_table ++ id ∷ []; id_map = (id, i) ∷ w.id_map })

unfoldable pub lookup_id : ℕ → Writer → ℕ × Writer
lookup_id id w = known_id (lookup_key id w.id_map) id w

-- appendInode
unfoldable pub append_inode : ℕ → Bytes → Writer → Writer
append_inode n b w = record w {
  inode_pos = (n, length w.inode_raw) ∷ w.inode_pos;
  inode_raw = w.inode_raw ++ b;
}

abbrev pub write_out : Bytes → Writer → Writer
write_out b w = record w { out = w.out ++ b; data_pos = w.data_pos + length b }

-- startBlock, blockSizes, fragIdx and fragOff, or io.ErrUnexpectedEOF; `no_fuel` is no answer.
pub record Placed : Type 0 where
  pub start_block : ℕ
  pub block_sizes : List ℕ
  pub frag_idx : ℕ
  pub frag_off : ℕ

pub data Streamed : Type 0 where
  streamed : Placed → Writer → Streamed
  unexpected_eof no_fuel : Streamed

abbrev pub tail_fragment : ℕ → List ℕ → ℕ × ℕ × Writer → Streamed
tail_fragment start sizes (i, off, w) =
    streamed (record { start_block = start; block_sizes = sizes; frag_idx = i; frag_off = off }) w

module _ (z : Zlib) where
  -- What goes to the file for a block of data, and its size word.
  unfoldable pub stored : Bytes → Bytes × ℕ
  stored b =
      let c = z.compress b in
      if ltb (length c) (length b) then (c, u32 (length c)) else (b, with_data_bit (u32 (length b)))

  unfoldable pub write_data_block : Bytes → Writer → ℕ × Writer
  unfolding stored
  write_data_block b w = ((stored b).1, write_out (stored b).0 w)

  unfoldable pub flush_frag_block : Writer → Writer
  unfolding stored
  flush_frag_block w =
      if length w.frag_buf == 0
      then w
      else (let s = stored w.frag_buf in
          record (write_out s.0 w) {
            fragments = w.fragments ++ (record { start = w.data_pos; size = s.1 }) ∷ [];
            frag_buf = [];
          })

  -- The number of the fragment, the offset in it, and the writer.
  unfoldable pub add_fragment : Bytes → Writer → ℕ × ℕ × Writer
  unfolding flush_frag_block
  add_fragment b w =
      let v =
        if ltb w.block_size (length w.frag_buf + length b) && ltb 0 (length w.frag_buf)
        then flush_frag_block w
        else w in
      (u32 (length v.fragments), u32 (length v.frag_buf), record v { frag_buf = v.frag_buf ++ b })

  -- What follows the loop of writeFileDataStreamed.
  unfoldable pub stream_tail : ℕ → ℕ → List ℕ → Bytes → Writer → Streamed
  unfolding add_fragment
  stream_tail start remaining sizes b w =
      if remaining == 0
      then streamed
          (record { start_block = start; block_sizes = sizes; frag_idx = 4294967295; frag_off = 0 })
          w
      else (if leb remaining (length b)
          then tail_fragment start sizes (add_fragment (take remaining b) w)
          else unexpected_eof)

  -- The loop of writeFileDataStreamed, on what is left of the file.
  unfoldable pub stream_blocks : ℕ → ℕ → ℕ → List ℕ → Bytes → Writer → Streamed
  unfolding stream_tail write_data_block
  stream_blocks zero start remaining sizes b w = no_fuel
  stream_blocks (suc fuel) start remaining sizes b w =
      let r = write_data_block (take w.block_size b) w in
      let rest =
        stream_blocks fuel start (remaining - w.block_size) (sizes ++ r.0 ∷ [])
          (drop w.block_size b) r.1 in
      if leb w.block_size remaining
      then (if leb w.block_size (length b) then rest else unexpected_eof)
      else stream_tail start remaining sizes b w

  -- writeFileDataStreamed: the file's bytes, and the size that Lstat gave.
  unfoldable pub write_file_data : Bytes → ℕ → Writer → Streamed
  unfolding stream_blocks
  write_file_data b size w = stream_blocks (suc size) (u32 w.data_pos) size [] b w
