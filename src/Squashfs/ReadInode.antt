-- ===== src/Squashfs/ReadInode.antt =====
-- How a reader of the squashfs format gets a file by its inode: the specification of the inodes that
-- pkg/lib/squashfs/writer.go writes for files.
use sandal.Prelude.{
  ℕ, zero, suc, ◌+◌, ◌-◌, ◌*◌, ◌/◌, ◌≡◌, refl, ap, sym, ◌∙◌, ◌&&◌, Option, none, some, List, [],
  ◌∷◌, ◌++◌, length, drop, get_or, ◌==◌, if◌then◌else◌, arith, All,
}
use sandal.Prelude.Words.{Bytes, le32}
use sandal.Squashfs.Writer.{Zlib, Writer, Placed, lookup_key}
use sandal.Squashfs.Reading.{read_file_data}
use sandal.Squashfs.Shapes.{IsShaped, IsWord}
use sandal.Squashfs.Inodes.{Attr, Numbered, file_inode, le32s}

-- The little-endian numbers at a place.
abbrev pub u16_at : ℕ → Bytes → ℕ
u16_at i b = get_or b i 0 + get_or b (i + 1) 0 * 256

abbrev pub u32_at : ℕ → Bytes → ℕ
u32_at i b =
    get_or b i 0
    + get_or b (i + 1) 0 * 256
    + get_or b (i + 2) 0 * 65536
    + get_or b (i + 3) 0 * 16777216

abbrev pub words : ℕ → Bytes → List ℕ
words zero b = []
words (suc n) b = u32_at 0 b ∷ words n (drop 4 b)

-- A basic file inode: the start block at 16, the fragment and the offset in it at 20 and 24, the size
-- at 28, and behind that a word for each block. Where there is no fragment, the last block may be
-- short.
abbrev pub block_count : ℕ → Bytes → ℕ
block_count bs b =
    if u32_at 20 b == 0xffff_ffff then (u32_at 28 b + (bs - 1)) / bs else u32_at 28 b / bs

abbrev pub read_placed : ℕ → Bytes → Placed
read_placed bs b = record {
  start_block = u32_at 16 b;
  block_sizes = words (block_count bs b) (drop 32 b);
  frag_idx = u32_at 20 b;
  frag_off = u32_at 24 b;
}

word_lem : (v : ℕ) (r : Bytes) → IsWord v → u32_at 0 (le32 v ++ r) ≡ v
word_lem v r h = omega (arith, h)

words-le32s : (ns : List ℕ) (r : Bytes) → All IsWord ns → words (length ns) (le32s ns ++ r) ≡ ns
words-le32s [] r h = refl
words-le32s (n ∷ ns) r (l, h) = rw (word_lem n (le32s ns ++ r) l, words-le32s ns r h) refl

-- The fields of the inode that is written for a file are read as they were.
pub record IsRead (a : Attr) (size bs : ℕ) (p : Placed) (n : Numbered) (b : Bytes) : Type 0 where
  pub kind : u16_at 0 b ≡ 2
  pub number : u32_at 12 b ≡ n.num
  pub length_at : u32_at 28 b ≡ size
  pub place : read_placed bs b ≡ p

pub file_inode-IsRead :
    (a : Attr) (size bs : ℕ) (p : Placed) (n : Numbered) (r : Bytes)
    → IsShaped bs size p
    → IsWord size
    → IsWord n.num
    → IsRead a size bs p n (file_inode a size p n ++ r)
unfolding file_inode
file_inode-IsRead a size bs p n r h small numbered =
    let start : u32_at 16 (file_inode a size p n ++ r) ≡ p.start_block = omega (arith, h.start) in
    let frag : u32_at 20 (file_inode a size p n ++ r) ≡ p.frag_idx = omega (arith, h.frag) in
    let off : u32_at 24 (file_inode a size p n ++ r) ≡ p.frag_off = omega (arith, h.off) in
    let long : u32_at 28 (file_inode a size p n ++ r) ≡ size = omega (arith, small) in
    let count : block_count bs (file_inode a size p n ++ r) ≡ length p.block_sizes =
      ap
        (λ x.
          if x == 0xffff_ffff
          then (u32_at 28 (file_inode a size p n ++ r) + (bs - 1)) / bs
          else u32_at 28 (file_inode a size p n ++ r) / bs)
        frag
      ∙ (ap (λ x. if p.frag_idx == 0xffff_ffff then (x + (bs - 1)) / bs else x / bs) long
          ∙ sym h.count) in
    let sizes : words (block_count bs (file_inode a size p n ++ r)) (le32s p.block_sizes ++ r)
        ≡ p.block_sizes =
      ap (λ k. words k (le32s p.block_sizes ++ r)) count ∙ words-le32s p.block_sizes r h.words in
    record {
      kind = omega arith;
      number = omega (arith, numbered);
      length_at = long;
      place = λ i. record {
        start_block = start i;
        block_sizes = sizes i;
        frag_idx = frag i;
        frag_off = off i;
      };
    }

module _ (z : Zlib) where
  abbrev pub read_at : ℕ → Option ℕ → Writer → Option Bytes
  read_at num none w = none
  read_at num (some place) w =
      if u16_at 0 (drop place w.inode_raw) == 2 && u32_at 12 (drop place w.inode_raw) == num
      then read_file_data z (read_placed w.block_size (drop place w.inode_raw))
          (u32_at 28 (drop place w.inode_raw)) w
      else none

  -- The contents of the file whose inode has this number: the inode is read where the writer has put
  -- it in the inode table.
  unfoldable pub read_file : ℕ → Writer → Option Bytes
  unfolding read_file_data
  read_file num w = read_at num (lookup_key num w.inode_pos) w
