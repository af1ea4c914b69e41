-- ===== src/Squashfs/Tree.antt =====
-- The walk over the files and the image that it gives: processDir and build of
-- pkg/lib/squashfs/writer.go.
use sandal.Prelude.{
  ℕ, zero, suc, ◌+◌, ◌-◌, ◌/◌, ◌%◌, Bool, true, false, Option, none, some, List, [], ◌∷◌, ◌++◌, map,
  length, take, drop, replicate, get_or, ltb, ◌==◌, if◌then◌else◌,
}
use sandal.Prelude.Words.{Bytes, u16, u32, le16, le32}
use sandal.Squashfs.Writer.{Zlib, Fragment, Writer, write_out, flush_frag_block, lookup_id}
use sandal.Squashfs.Metadata.{
  MetaBlock, compress_metadata_blocks, write_metadata_cached, write_metadata_blocks_tracked,
  inode_ref,
}
use sandal.Squashfs.Inodes.{
  Attr, Built, built, file_changed, out_of_fuel, build_file_inode, build_symlink_inode,
  build_dir_inode,
}
use sandal.Squashfs.Directories.{InodeInfo, pos_of, build_dir_entries}

-- What Lstat, Readlink and the listing of a directory give, its names in their order; `vanished` is
-- a listed name that is not there, `special` a device, a socket or a pipe.
mutual
  pub data Node : Type 0 where
    symlink : Attr → Bytes → Node
    regular : Attr → Bytes → ℕ → Node
    directory : Attr → Entries → Node
    special vanished : Node

  pub data Entries : Type 0 where
    no_entries : Entries
    entry : Bytes → Node → Entries → Entries

pub data Walked : Type 0 where
  walked : List InodeInfo → Writer → Walked
  walk_failed walk_out_of_fuel : Walked

abbrev pub and_then : Walked → (Writer → Walked) → Walked
and_then (walked cs w) k = elim (k w) [
  | walked ds v ↦ walked (cs ++ ds) v
  | walk_failed ↦ walk_failed
  | walk_out_of_fuel ↦ walk_out_of_fuel
]
and_then walk_failed k = walk_failed
and_then walk_out_of_fuel k = walk_out_of_fuel

abbrev pub one_child : ℕ → Bytes → ℕ × Writer → Walked
one_child kind name (i, w) =
    walked ((record { inode_num = i; inode_type = kind; name = name }) ∷ []) w

abbrev pub file_child : Bytes → Built → Walked
file_child name (built i w) = one_child 2 name (i, w)
file_child name file_changed = walk_failed
file_child name out_of_fuel = walk_out_of_fuel

-- The end of processDir, on the children.
unfoldable pub finish_dir : Attr → List InodeInfo → Writer → ℕ × Writer
unfolding build_dir_entries build_dir_inode
finish_dir a cs w = let d = build_dir_entries cs w in build_dir_inode a (length cs) d.0 d.1 d.2

abbrev pub dir_child : Attr → Bytes → Walked → Walked
dir_child a name (walked cs w) = one_child 1 name (finish_dir a cs w)
dir_child a name walk_failed = walk_failed
dir_child a name walk_out_of_fuel = walk_out_of_fuel

-- processDir, with pathFilter and the directory's path below the root.
unfoldable mutual
  unfolding build_symlink_inode build_file_inode finish_dir

  pub process_entries : Zlib → (Bytes → Bool → Bool) → Bytes → Entries → Writer → Walked
  process_entries z keep rel no_entries w = walked [] w
  process_entries z keep rel (entry n node rest) w =
      and_then (process_node z keep (rel ++ b'/' ∷ n) n node w)
        (λ v. process_entries z keep rel rest v)

  pub process_node : Zlib → (Bytes → Bool → Bool) → Bytes → Bytes → Node → Writer → Walked
  process_node z keep path n (symlink a target) w =
      if keep path false then one_child 3 n (build_symlink_inode a target w) else walked [] w
  process_node z keep path n (regular a content size) w =
      if keep path false then file_child n (build_file_inode z a content size w) else walked [] w
  process_node z keep path n (directory a es) w =
      let inner = process_entries z keep path es w in
      if keep path true then dir_child a n inner else walked [] w
  process_node z keep path n special w = walked [] w
  process_node z keep path n vanished w = walked [] w

-- binary.LittleEndian.PutUint32 and PutUint16 into a buffer.
abbrev splice : ℕ → Bytes → Bytes → Bytes
splice i x b = take i b ++ (x ++ drop (i + length x) b)

abbrev pub offsets_of : List MetaBlock → List ℕ
offsets_of = map (λ m. m.offset)

-- The start fields of the directory table.
unfoldable pub patch_entries : List ℕ → List (ℕ × ℕ) → List (ℕ × ℕ) → Bytes → Bytes
patch_entries offsets pos [] b = b
patch_entries offsets pos ((at_pos, num) ∷ fs) b =
    patch_entries offsets pos fs
      (splice at_pos (le32 (u32 (get_or offsets (pos_of num pos / 8192) 0))) b)

-- The fields of the directories' inodes.
unfoldable pub patch_inodes : List ℕ → List (ℕ × ℕ) → Bytes → Bytes
patch_inodes offsets [] b = b
patch_inodes offsets ((at_pos, dir_pos) ∷ fs) b = patch_inodes offsets fs (
    splice (at_pos + 10) (le16 (dir_pos % 8192))
      (splice at_pos (le32 (u32 (get_or offsets (dir_pos / 8192) 0))) b))

abbrev pub le64 : ℕ → Bytes
le64 v = le32 (u32 v) ++ le32 (u32 (v / 4294967296))

abbrev le64s : List ℕ → Bytes
le64s [] = []
le64s (n ∷ ns) = le64 n ++ le64s ns

abbrev fragment_entries : List Fragment → Bytes
fragment_entries [] = []
fragment_entries (f ∷ fs) = le64 f.start ++ (le32 f.size ++ (le32 0 ++ fragment_entries fs))

abbrev id_entries : List ℕ → Bytes
id_entries [] = []
id_entries (n ∷ ns) = le32 n ++ id_entries ns

-- A table of metadata blocks and the list of their positions behind it.
unfoldable pub write_lookup_table : Zlib → Bytes → Writer → ℕ × Writer
unfolding write_metadata_blocks_tracked
write_lookup_table z b w =
    let r = write_metadata_blocks_tracked z (length b) b w in
    (r.1.data_pos, write_out (le64s r.0) r.1)

unfoldable pub write_fragment_table : Zlib → Writer → ℕ × Writer
unfolding write_lookup_table
write_fragment_table z w =
    if length w.fragments == 0
    then (w.data_pos, w)
    else write_lookup_table z (fragment_entries w.fragments) w

unfoldable pub write_id_table : Zlib → Writer → ℕ × Writer
unfolding write_lookup_table lookup_id
write_id_table z w =
    let v = if length w.id_table == 0 then (lookup_id 0 w).1 else w in
    write_lookup_table z (id_entries v.id_table) v

-- The loop for BlockLog: shifts until 1 is left; a uint32 takes at most 32 of them.
unfoldable pub block_log : ℕ → ℕ → ℕ
block_log zero bs = 0
block_log (suc fuel) bs = let rest = 1 + block_log fuel (bs / 2) in if ltb 1 bs then rest else 0

-- SquashfsHeader as binary.Write writes it.
pub record Superblock : Type 0 where
  pub inodes : ℕ
  pub mkfs_time : ℕ
  pub size_of_block : ℕ
  pub fragment_count : ℕ
  pub log : ℕ
  pub ids : ℕ
  pub root_inode : ℕ
  pub bytes_used : ℕ
  pub id_table_start : ℕ
  pub inode_table_start : ℕ
  pub directory_table_start : ℕ
  pub fragment_table_start : ℕ

unfoldable pub superblock_bytes : Superblock → Bytes
superblock_bytes s =
    le32 1936814952
    ++ (le32 s.inodes
        ++ (le32 s.mkfs_time
            ++ (le32 s.size_of_block
                ++ (le32 s.fragment_count
                    ++ (le16 1
                        ++ (le16 s.log
                            ++ (le16 576
                                ++ (le16 s.ids
                                    ++ (le16 4
                                        ++ (le16 0
                                            ++ (le64 s.root_inode
                                                ++ (le64 s.bytes_used
                                                    ++ (le64 s.id_table_start
                                                        ++ (le64 18446744073709551615
                                                            ++ (le64 s.inode_table_start
                                                            ++ (le64 s.directory_table_start
                                                            ++ (le64 s.fragment_table_start
                                                            ++ le64
                                                            18446744073709551615)))))))))))))))))

-- What build gives: the image, an error of the walk, or a panic of inodeRef.
pub data Image : Type 0 where
  image : Superblock → Bytes → Image
  walk_error fuel_error ref_panic : Image

abbrev with_ref : Option ℕ → (ℕ → Image) → Image
with_ref none k = ref_panic
with_ref (some r) k = k r

-- build from the tables on.
unfoldable pub write_tables : Zlib → ℕ → Writer → Image
unfolding patch_entries patch_inodes compress_metadata_blocks write_metadata_cached
    write_fragment_table write_id_table inode_ref superblock_bytes block_log
write_tables z mkfs w =
    let inode_offsets = offsets_of (compress_metadata_blocks z w.inode_raw true) in
    let dir_data = patch_entries inode_offsets w.inode_pos w.dir_entry_fixups w.dir_raw in
    let dirs = compress_metadata_blocks z dir_data true in
    let inode_data = patch_inodes (offsets_of dirs) w.dir_inode_fixups w.inode_raw in
    let inodes = compress_metadata_blocks z inode_data true in
    let root_pos = pos_of (w.next_inode - 1) w.inode_pos in
    let a = write_metadata_cached inodes w in
    let b = write_metadata_cached dirs a.1 in
    let f = write_fragment_table z b.1 in
    let i = write_id_table z f.1 in
    let used = i.1.data_pos in
    with_ref (inode_ref root_pos (offsets_of inodes)) (λ r.
      let s : Superblock = record {
        inodes = w.next_inode - 1;
        mkfs_time = u32 mkfs;
        size_of_block = w.block_size;
        fragment_count = u32 (length w.fragments);
        log = block_log 32 w.block_size;
        ids = u16 (length i.1.id_table);
        root_inode = r;
        bytes_used = used;
        id_table_start = i.0;
        inode_table_start = a.0;
        directory_table_start = b.0;
        fragment_table_start = if length w.fragments == 0 then 18446744073709551615 else f.0;
      } in
      image s (superblock_bytes s ++ (i.1.out ++ replicate ((4096 - used % 4096) % 4096) 0)))

abbrev built_from : Zlib → Attr → ℕ → Walked → Image
built_from z a mkfs (walked cs w) = write_tables z mkfs (flush_frag_block z (finish_dir a cs w).1)
built_from z a mkfs walk_failed = walk_error
built_from z a mkfs walk_out_of_fuel = fuel_error

-- build, of the root directory's own attributes and its entries.
unfoldable pub build : Zlib → (Bytes → Bool → Bool) → ℕ → Attr → Entries → Writer → Image
unfolding process_entries finish_dir flush_frag_block write_tables
build z keep mkfs a es w = built_from z a mkfs (process_entries z keep [] es w)
