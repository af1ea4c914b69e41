-- ===== src/Squashfs/Inodes.antt =====
-- The inodes of pkg/lib/squashfs/writer.go: unixMode, buildFileInode, buildSymlinkInode and
-- buildDirInode.
use sandal.Prelude.{ℕ, ◌+◌, ◌/◌, ◌%◌, List, [], ◌∷◌, ◌++◌, length, leb, ◌==◌, if◌then◌else◌}
use sandal.Prelude.Words.{Bytes, u16, u32, le16, le32}
use sandal.Squashfs.Writer.{
  Zlib, Writer, Placed, Streamed, streamed, unexpected_eof, no_fuel, alloc_inode, lookup_id,
  append_inode, write_file_data,
}

-- The mode and the modification time of fs.FileInfo, the time as an int64 modulo 2^64.
pub record Attr : Type 0 where
  pub mode : ℕ
  pub mtime : ℕ

-- fs.ModeSetuid, fs.ModeSetgid and fs.ModeSticky are bits 23, 22 and 20; Perm is the low nine.
unfoldable pub unix_mode : ℕ → ℕ
unix_mode m =
    m % 512
    + ((if m / 8388608 % 2 == 1 then 2048 else 0)
        + ((if m / 4194304 % 2 == 1 then 1024 else 0) + (if m / 1048576 % 2 == 1 then 512 else 0)))

-- The fields that all inodes begin with.
abbrev pub inode_header : ℕ → ℕ → ℕ → ℕ → ℕ → ℕ → Bytes
inode_header kind mode uid gid mtime num =
    le16 kind ++ (le16 mode ++ (le16 uid ++ (le16 gid ++ (le32 (u32 mtime) ++ le32 num))))

-- allocInode, and lookupID of the owner and of the group, both 0.
pub record Numbered : Type 0 where
  pub num : ℕ
  pub uid : ℕ
  pub gid : ℕ
  pub writer : Writer

unfoldable pub numbered : Writer → Numbered
unfolding alloc_inode lookup_id
numbered w =
    let a = alloc_inode w in
    let u = lookup_id 0 a.1 in
    let g = lookup_id 0 u.1 in record { num = a.0; uid = u.0; gid = g.0; writer = g.1 }

abbrev pub le32s : List ℕ → Bytes
le32s [] = []
le32s (n ∷ ns) = le32 n ++ le32s ns

unfoldable pub file_inode : Attr → ℕ → Placed → Numbered → Bytes
unfolding unix_mode
file_inode a size p n =
    inode_header 2 (unix_mode a.mode) n.uid n.gid a.mtime n.num
    ++ (le32 p.start_block
        ++ (le32 p.frag_idx ++ (le32 p.frag_off ++ (le32 (u32 size) ++ le32s p.block_sizes))))

pub data Built : Type 0 where
  built : ℕ → Writer → Built
  file_changed out_of_fuel : Built

unfoldable pub placed_inode : Attr → ℕ → Streamed → Built
unfolding numbered file_inode append_inode
placed_inode a size (streamed p w) =
    let n = numbered w in built n.num (append_inode n.num (file_inode a size p n) n.writer)
placed_inode a size unexpected_eof = file_changed
placed_inode a size no_fuel = out_of_fuel

-- buildFileInode, of the file's bytes and the size that Lstat gave.
unfoldable pub build_file_inode : Zlib → Attr → Bytes → ℕ → Writer → Built
unfolding placed_inode write_file_data
build_file_inode z a content size w = placed_inode a size (write_file_data z content size w)

unfoldable pub build_symlink_inode : Attr → Bytes → Writer → ℕ × Writer
unfolding numbered append_inode
build_symlink_inode a target w =
    let n = numbered w in
    (
      n.num,
      append_inode n.num
          (inode_header 3 511 n.uid n.gid a.mtime n.num
            ++ (le32 1 ++ (le32 (u32 (length target)) ++ target)))
          n.writer,
    )

-- The inode of a directory, with zeros for where its entries are, and where those zeros stand.
unfoldable pub dir_inode : Attr → ℕ → ℕ → Numbered → Bytes × ℕ
unfolding unix_mode
dir_inode a children file_size n =
    if leb file_size 65535
    then (
      inode_header 1 (unix_mode a.mode) n.uid n.gid a.mtime n.num
          ++ (le32 0
              ++ (le32 (u32 (children + 2)) ++ (le16 (u16 file_size) ++ (le16 0 ++ le32 1)))),
      16,
    )
    else (
      inode_header 8 (unix_mode a.mode) n.uid n.gid a.mtime n.num
          ++ (le32 (u32 (children + 2))
              ++ (le32 file_size ++ (le32 0 ++ (le32 1 ++ (le16 0 ++ (le16 0 ++ le32 0)))))),
      24,
    )

unfoldable pub build_dir_inode : Attr → ℕ → ℕ → ℕ → Writer → ℕ × Writer
unfolding numbered dir_inode append_inode
build_dir_inode a children dir_pos dir_size w =
    let n = numbered w in
    let d = dir_inode a children (u32 (dir_size + 3)) n in
    let v = append_inode n.num d.0 n.writer in
    (
      n.num,
      (if children == 0 then v else record v {
        dir_inode_fixups = v.dir_inode_fixups ++ (length w.inode_raw + d.1, dir_pos) ∷ [];
      }),
    )
