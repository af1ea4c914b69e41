-- ===== src/Squashfs/Found.antt =====
-- A file that the writer of pkg/lib/squashfs/writer.go holds is read by its inode.
use mathlib.Core.Path.{subst}
use sandal.Prelude.{
  ℕ, zero, suc, ◌≡◌, refl, sym, ap, ◌∙◌, inl, inr, Bool, true, false, ◌&&◌, some, [], ◌∷◌, ◌++◌,
  length, take, drop, ◌==◌, Bool-cases, arith,
}
use sandal.Prelude.Words.{Bytes}
use sandal.Squashfs.Writer.{Zlib, Writer}
use sandal.Squashfs.Reading.{read_file_data}
use sandal.Squashfs.Held.{IsHeld-read}
use sandal.Squashfs.Inodes.{Attr, file_inode}
use sandal.Squashfs.ReadInode.{IsRead, file_inode-IsRead, read_file, read_at, u16_at, u32_at}
use sandal.Squashfs.Walk.{FileHeld}
use sandal.Squashfs.Tree.{
  Node, Entries, symlink, regular, directory, special, vanished, no_entries, entry,
}
use sandal.Squashfs.Nodes.{NodeHeld, AllHeld, NodeFound, AllFound}

take-append-drop : (n : ℕ) (s : Bytes) → take n s ++ drop n s ≡ s
take-append-drop zero s = refl
take-append-drop (suc n) [] = refl
take-append-drop (suc n) (x ∷ s) = ap (◌∷◌ x) (take-append-drop n s)

module _ (z : Zlib) where
  FileHeld-IsRead :
      (a : Attr) (content : Bytes) (w : Writer) (h : FileHeld z a content w)
      → IsRead a (length content) w.block_size h.placed h.number (drop h.inode.place w.inode_raw)
  FileHeld-IsRead a content w h =
      let b : Bytes = file_inode a (length content) h.placed h.number in
      let rest : Bytes = drop (length b) (drop h.inode.place w.inode_raw) in
      subst (IsRead a (length content) w.block_size h.placed h.number)
        (ap (λ x. x ++ rest) (sym h.inode.bytes)
          ∙ take-append-drop (length b) (drop h.inode.place w.inode_raw))
        (file_inode-IsRead a (length content) w.block_size h.placed h.number rest h.shaped h.small
          h.numbered)

  FileHeld-read :
      (a : Attr) (content : Bytes) (w : Writer) (h : FileHeld z a content w)
      → read_file z h.number.num w ≡ some content
  unfolding read_file
  FileHeld-read a content w h =
      let r = FileHeld-IsRead a content w h in
      let raw : Bytes = drop h.inode.place w.inode_raw in
      let right : ((u16_at 0 raw == 2) && (u32_at 12 raw == h.number.num)) ≡ true =
        ground (arith, r.kind, r.number) in
      ap (λ o. read_at z h.number.num o w) h.inode.found
      ∙ rw right (
          ap (λ p. read_file_data z p (u32_at 28 raw) w) r.place
          ∙ (ap (λ n. read_file_data z h.placed n w) r.length_at
              ∙ IsHeld-read z h.placed (length content) content w h.held))

  mutual
    unfolding NodeHeld NodeFound AllHeld AllFound

    NodeHeld-NodeFound :
        (keep : Bytes → Bool → Bool) (path : Bytes) (x : Node) (w : Writer)
        → NodeHeld z keep path x w
        → NodeFound z keep path x w
    NodeHeld-NodeFound keep path (symlink a t) w h = tt
    NodeHeld-NodeFound keep path (regular a b n) w h = elim (Bool-cases (keep path false)) [
      | inl e ↦ (let f = rw e at h in rw e (f.number.num, FileHeld-read a b w f))
      | inr e ↦ rw e tt
    ]
    NodeHeld-NodeFound keep path (directory a es) w h = elim (Bool-cases (keep path true)) [
      | inl e ↦ rw e (AllHeld-AllFound keep path es w (rw e at h))
      | inr e ↦ rw e tt
    ]
    NodeHeld-NodeFound keep path special w h = tt
    NodeHeld-NodeFound keep path vanished w h = tt

    pub AllHeld-AllFound :
        (keep : Bytes → Bool → Bool) (rel : Bytes) (es : Entries) (w : Writer)
        → AllHeld z keep rel es w
        → AllFound z keep rel es w
    AllHeld-AllFound keep rel no_entries w h = tt
    AllHeld-AllFound keep rel (entry n x rest) w (h, hs) =
        (NodeHeld-NodeFound keep (rel ++ b'/' ∷ n) x w h, AllHeld-AllFound keep rel rest w hs)
