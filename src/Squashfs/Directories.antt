-- ===== src/Squashfs/Directories.antt =====
-- The directory table of pkg/lib/squashfs/writer.go: buildDirEntries.
use sandal.Prelude.{
  ℕ, zero, suc, ◌+◌, ◌-◌, ◌/◌, ◌%◌, ◌&&◌, none, some, List, [], ◌∷◌, ◌++◌, length, ltb, ◌==◌,
  if◌then◌else◌,
}
use sandal.Prelude.Words.{Bytes, u32, le16, le32}
use sandal.Squashfs.Writer.{Writer, lookup_key}

-- inodeInfo
pub record InodeInfo : Type 0 where
  pub inode_num : ℕ
  pub inode_type : ℕ
  pub name : Bytes

-- A missing key of inodePos reads as 0.
abbrev pub pos_of : ℕ → List (ℕ × ℕ) → ℕ
pos_of n m = elim (lookup_key n m) [ none ↦ 0 | some p ↦ p ]

abbrev block_of : InodeInfo → List (ℕ × ℕ) → ℕ
block_of c pos = pos_of c.inode_num pos / 8192

-- The children that go on a group of `n` whose inodes are in a block, and the others.
unfoldable pub group_extent :
    ℕ → ℕ → List (ℕ × ℕ) → List InodeInfo → List InodeInfo × List InodeInfo
group_extent block n pos [] = ([], [])
group_extent block n pos (c ∷ cs) =
    let r = group_extent block (n + 1) pos cs in
    if ltb n 256 && block_of c pos == block then (c ∷ r.0, r.1) else ([], c ∷ cs)

-- An entry of a group whose first child has the inode number `first`.
unfoldable pub dir_entry : ℕ → List (ℕ × ℕ) → InodeInfo → Bytes
dir_entry first pos c =
    le16 (pos_of c.inode_num pos % 8192)
    ++ (le16 ((c.inode_num + 4294967296 - first) % 65536)
        ++ (le16 c.inode_type ++ (le16 ((length c.name + 65535) % 65536) ++ c.name)))

unfoldable pub group_entries : ℕ → List (ℕ × ℕ) → List InodeInfo → Bytes
unfolding dir_entry
group_entries first pos [] = []
group_entries first pos (c ∷ cs) = dir_entry first pos c ++ group_entries first pos cs

-- The groups from the table's position `at_pos` on, and the fixups of their start fields.
unfoldable pub dir_groups : ℕ → ℕ → List (ℕ × ℕ) → List InodeInfo → Bytes × List (ℕ × ℕ)
unfolding group_extent group_entries
dir_groups zero at_pos pos cs = ([], [])
dir_groups (suc fuel) at_pos pos [] = ([], [])
dir_groups (suc fuel) at_pos pos (c ∷ cs) =
    let g = group_extent (block_of c pos) 1 pos cs in
    let b =
      le32 (length g.0)
      ++ (le32 0 ++ (le32 c.inode_num ++ group_entries c.inode_num pos (c ∷ g.0))) in
    let r = dir_groups fuel (at_pos + length b) pos g.1 in
    (b ++ r.0, (at_pos + 4, c.inode_num) ∷ r.1)

-- buildDirEntries, of children in the order of their names: where the entries begin, and their size.
unfoldable pub build_dir_entries : List InodeInfo → Writer → ℕ × ℕ × Writer
unfolding dir_groups
build_dir_entries cs w =
    let g = dir_groups (length cs) (length w.dir_raw) w.inode_pos cs in
    (
      length w.dir_raw,
      u32 (length g.0),
      record w { dir_raw = w.dir_raw ++ g.0; dir_entry_fixups = w.dir_entry_fixups ++ g.1 },
    )
