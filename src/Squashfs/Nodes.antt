-- ===== src/Squashfs/Nodes.antt =====
-- A tree for processDir of pkg/lib/squashfs/writer.go: its size, and that an image has its files.
use sandal.Prelude.{some, ℕ, ◌+◌, ◌≡◌, Bool, true, false, ◌∷◌, ◌++◌, length, if◌then◌else◌}
use sandal.Prelude.Words.{Bytes}
use sandal.Squashfs.Writer.{Zlib, Writer}
use sandal.Squashfs.Walk.{FileHeld}
use sandal.Squashfs.ReadInode.{read_file}
use sandal.Squashfs.Tree.{
  Node, Entries, symlink, regular, directory, special, vanished, no_entries, entry,
}

-- The nodes of a tree, the bytes of its files, and that each file has the size that Lstat gave.
unfoldable mutual
  pub node_count : Node → ℕ
  node_count (symlink a t) = 1
  node_count (regular a b n) = 1
  node_count (directory a es) = count es + 1
  node_count special = 1
  node_count vanished = 1

  pub count : Entries → ℕ
  count no_entries = 0
  count (entry n node rest) = node_count node + count rest

unfoldable mutual
  pub node_bytes : Node → ℕ
  node_bytes (symlink a t) = 0
  node_bytes (regular a b n) = length b
  node_bytes (directory a es) = all_bytes es
  node_bytes special = 0
  node_bytes vanished = 0

  pub all_bytes : Entries → ℕ
  all_bytes no_entries = 0
  all_bytes (entry n node rest) = node_bytes node + all_bytes rest

unfoldable mutual
  pub NodeStable : Node → Type 0
  NodeStable (symlink a t) = Unit
  NodeStable (regular a b n) = n ≡ length b
  NodeStable (directory a es) = AllStable es
  NodeStable special = Unit
  NodeStable vanished = Unit

  pub AllStable : Entries → Type 0
  AllStable no_entries = Unit
  AllStable (entry n node rest) = NodeStable node × AllStable rest

-- The files that the filter keeps are in the image.
unfoldable mutual
  pub NodeHeld : Zlib → (Bytes → Bool → Bool) → Bytes → Node → Writer → Type 0
  NodeHeld z keep path (symlink a t) w = Unit
  NodeHeld z keep path (regular a b n) w = if keep path false then FileHeld z a b w else Unit
  NodeHeld z keep path (directory a es) w =
      if keep path true then AllHeld z keep path es w else Unit
  NodeHeld z keep path special w = Unit
  NodeHeld z keep path vanished w = Unit

  pub AllHeld : Zlib → (Bytes → Bool → Bool) → Bytes → Entries → Writer → Type 0
  AllHeld z keep rel no_entries w = Unit
  AllHeld z keep rel (entry n node rest) w =
      NodeHeld z keep (rel ++ b'/' ∷ n) node w × AllHeld z keep rel rest w

-- For each file that the filter keeps there is an inode by which a reader gets the file's bytes.
unfoldable mutual
  pub NodeFound : Zlib → (Bytes → Bool → Bool) → Bytes → Node → Writer → Type 0
  NodeFound z keep path (symlink a t) w = Unit
  NodeFound z keep path (regular a b n) w =
      if keep path false then ((num : ℕ) × (read_file z num w ≡ some b)) else Unit
  NodeFound z keep path (directory a es) w =
      if keep path true then AllFound z keep path es w else Unit
  NodeFound z keep path special w = Unit
  NodeFound z keep path vanished w = Unit

  pub AllFound : Zlib → (Bytes → Bool → Bool) → Bytes → Entries → Writer → Type 0
  AllFound z keep rel no_entries w = Unit
  AllFound z keep rel (entry n node rest) w =
      NodeFound z keep (rel ++ b'/' ∷ n) node w × AllFound z keep rel rest w
