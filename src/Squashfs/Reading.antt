-- ===== src/Squashfs/Reading.antt =====
-- What a reader of the squashfs format finds in an image: the specification of the writer.
use sandal.Prelude.{
  ℕ, ◌+◌, ◌-◌, ◌/◌, ◌%◌, Option, none, some, List, [], ◌∷◌, ◌++◌, length, take, drop, get_elem?,
  leb, ◌==◌, if◌then◌else◌,
}
use sandal.Prelude.Words.{Bytes}
use sandal.Squashfs.Writer.{Zlib, Fragment, Writer, Placed, header_size}

-- The bytes that a block of a size word takes.
abbrev pub stored_length : ℕ → ℕ
stored_length size = size % 16777216

abbrev pub joined : Option Bytes → Option Bytes → Option Bytes
joined (some x) (some y) = some (x ++ y)
joined (some x) none = none
joined none y = none

-- `n` bytes of a fragment from `off` on.
abbrev pub cut_out : ℕ → ℕ → Option Bytes → Option Bytes
cut_out off n none = none
cut_out off n (some b) = if leb (off + n) (length b) then some (take n (drop off b)) else none

module _ (z : Zlib) where
  -- A block of data at the start of the bytes.
  abbrev pub read_block : ℕ → Bytes → Option Bytes
  read_block size b =
      if size / 16777216 % 2 == 1
      then some (take (stored_length size) b)
      else z.decompress (take (stored_length size) b)

  -- The blocks of a file, one after the other.
  unfoldable pub read_blocks : List ℕ → Bytes → Option Bytes
  read_blocks [] b = some []
  read_blocks (s ∷ ss) b = joined (read_block s b) (read_blocks ss (drop (stored_length s) b))

  -- A fragment's contents; the last one may still be in the buffer.
  abbrev pub fragment_or_buffer : Option Fragment → ℕ → Writer → Option Bytes
  fragment_or_buffer (some f) i w = read_block f.size (drop (f.start - header_size) w.out)
  fragment_or_buffer none i w = if i == length w.fragments then some w.frag_buf else none

  unfoldable pub fragment_bytes : ℕ → Writer → Option Bytes
  fragment_bytes i w = fragment_or_buffer (get_elem? w.fragments i) i w

  -- The contents of a file of `size` bytes: its blocks, and its piece of a fragment.
  unfoldable pub read_file_data : Placed → ℕ → Writer → Option Bytes
  unfolding read_blocks fragment_bytes
  read_file_data p size w =
      joined (read_blocks p.block_sizes (drop (p.start_block - header_size) w.out)) (
        if p.frag_idx == 4294967295
        then some []
        else cut_out p.frag_off (size % w.block_size) (fragment_bytes p.frag_idx w))
