-- ===== src/Tests/SquashfsRuns.antt =====
-- Runs of the squashfs writer of pkg/lib/squashfs, and each theorem at an input.
use sandal.Prelude.{
  ◌≡◌, refl, ap, inl, inr, ℕ, zero, suc, ◌<◌, Bool, true, false, ◌&&◌, Option, none, some, List, [],
  ◌∷◌, map, length, drop, replicate, arith, ◌==◌, if◌then◌else◌, Bool-cases,
}
use sandal.Prelude.Words.{Bytes}
use sandal.Prelude.Text.{codes}
use sandal.Squashfs.Writer.{
  Zlib, IsZlib, Writer, Placed, new_writer, write_file_data, unexpected_eof,
}
use sandal.Squashfs.Image.{write_all, AllRead, write_all-new_writer}
use sandal.Squashfs.Metadata.{compress_metadata_blocks, table_bytes, inode_ref}
use sandal.Squashfs.Tables.{follow, inode_ref-follow}
use sandal.Squashfs.Inodes.{Attr, unix_mode}
use sandal.Squashfs.Tree.{
  Entries, symlink, regular, directory, no_entries, entry, Image, image, Superblock, build,
}
use sandal.Squashfs.Filter.{new_include_exclude_filter}

all_same : ℕ → Bytes → Bool
all_same x [] = true
all_same x (y ∷ b) = y == x && all_same x b

-- A stand-in for zlib: a run of one byte is its length and the byte.
squeeze : Bytes → Bytes
unfolding all_same
squeeze [] = 0 ∷ []
squeeze (x ∷ b) = if all_same x b then 1 ∷ x ∷ length (x ∷ b) ∷ [] else 0 ∷ x ∷ b

abbrev unsqueeze : Bytes → Option Bytes
unsqueeze [] = none
unsqueeze (zero ∷ b) = some b
unsqueeze (suc k ∷ x ∷ n ∷ []) = some (replicate n x)
unsqueeze (suc k ∷ b) = none

abbrev toy : Zlib
toy = record { compress = squeeze; decompress = unsqueeze }

replicate-all_same : (x : ℕ) (b : Bytes) → all_same x b ≡ true → replicate (length b) x ≡ b
unfolding all_same
replicate-all_same x [] h = refl
replicate-all_same x (y ∷ b) h = ground (arith, replicate-all_same x b)

unsqueeze-squeeze : (b : Bytes) → unsqueeze (squeeze b) ≡ some b
unfolding squeeze
unsqueeze-squeeze [] = refl
unsqueeze-squeeze (x ∷ b) = elim (Bool-cases (all_same x b)) [
  | inl e ↦ rw e (ap (λ r. some (x ∷ r)) (replicate-all_same x b e))
  | inr e ↦ rw e refl
]

toy-IsZlib : IsZlib toy
toy-IsZlib = record { decompress-compress = unsqueeze-squeeze }

abbrev contents : List Bytes
contents = (7 ∷ 7 ∷ 7 ∷ 7 ∷ 1 ∷ 2 ∷ []) ∷ [] ∷ (5 ∷ 5 ∷ 5 ∷ []) ∷ []

write_all-new_writer_example :
    (ps : List Placed) × (v : Writer) × (write_all toy contents (new_writer 4) ≡ some (ps, v))
    × AllRead toy contents ps v
write_all-new_writer_example =
    write_all-new_writer toy toy-IsZlib 4 contents (omega arith) (omega arith) (omega arith)
      (omega arith)

abbrev metadata : Bytes
metadata = 1 ∷ 2 ∷ 3 ∷ []

small_table : length (table_bytes (compress_metadata_blocks toy metadata true)) < 281474976710656
unfolding table_bytes compress_metadata_blocks
small_table = omega arith

inode_ref-follow_example :
    (ref : ℕ) × (inode_ref 2 (map (λ m. m.offset) (compress_metadata_blocks toy metadata true))
      ≡ some ref)
    × (follow toy 3 ref (table_bytes (compress_metadata_blocks toy metadata true))
        ≡ some (drop 2 metadata))
inode_ref-follow_example = inode_ref-follow toy toy-IsZlib metadata true 2 (omega arith) small_table

-- The blocks on the disk, the fragments, and an image of a small tree.
abbrev out_of : Option (List Placed × Writer) → Bytes
out_of none = []
out_of (some (ps, w)) = w.out

abbrev superblock_of : Image → Option Superblock
superblock_of (image s b) = some s
superblock_of other = none

abbrev superblock_inodes : Image → ℕ
superblock_inodes (image s b) = s.inodes
superblock_inodes other = 0

abbrev attr : ℕ → Attr
attr m = record { mode = m; mtime = 9 }

abbrev tree : Entries
tree =
    entry (b'a' ∷ [])
      (directory (attr 493) (entry (b'f' ∷ []) (regular (attr 8389028) (1 ∷ 2 ∷ []) 2) no_entries))
      (entry (b'l' ∷ []) (symlink (attr 511) (b'a' ∷ [])) no_entries)

runs :
    (out_of (write_all toy contents (new_writer 4)) ≡ 1 ∷ 7 ∷ 4 ∷ 1 ∷ 2 ∷ 5 ∷ 5 ∷ 5 ∷ [])
    × (unix_mode 8389028 ≡ 2468)
    × (write_file_data toy (1 ∷ []) 3 (new_writer 4) ≡ unexpected_eof)
unfolding write_all write_file_data new_writer squeeze unix_mode
runs = (refl, refl, refl)

image_of_tree :
    superblock_of (build toy (λ path dir. true) 9 (attr 493) tree (new_writer 4))
    ≡ some (record {
      inodes = 4;
      mkfs_time = 9;
      size_of_block = 4;
      fragment_count = 1;
      log = 2;
      ids = 1;
      root_inode = 89;
      bytes_used = 313;
      id_table_start = 305;
      inode_table_start = 98;
      directory_table_start = 221;
      fragment_table_start = 292;
    })
unfolding build new_writer squeeze
image_of_tree = refl

abbrev everything : Bytes → Bool → Bool
everything path dir = true

-- Runs of filter_test.go, and of a filter without includes.
filter_runs :
    (new_include_exclude_filter (codes "/folder1/sub" ∷ []) [] (codes "/folder1") true ≡ true)
    × (new_include_exclude_filter (codes "/folder1/sub" ∷ []) [] (codes "/folder1") false ≡ false)
    × (new_include_exclude_filter (codes "/" ∷ []) (codes "/tmp/" ∷ []) (codes "/tmp/x") false
        ≡ false)
    × (new_include_exclude_filter (codes "/" ∷ []) (codes "/tmp" ∷ []) (codes "/etc/motd") false
        ≡ true)
    × (new_include_exclude_filter (codes "folder1" ∷ []) [] (codes "/folder1/x") false ≡ true)
    × (new_include_exclude_filter [] [] (codes "/etc") true ≡ false)
unfolding new_include_exclude_filter
filter_runs = (refl, refl, refl, refl, refl, refl)

-- An image without the directory a.
filtered_tree :
    superblock_inodes (
      build toy
        (new_include_exclude_filter (codes "/" ∷ []) (codes "/a" ∷ []))
        9
        (attr 493)
        tree
        (new_writer 4))
    ≡ 2
unfolding build new_writer squeeze new_include_exclude_filter
filtered_tree = refl
