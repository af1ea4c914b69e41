-- ===== src/Squashfs/Children.antt =====
-- One child in processDir of pkg/lib/squashfs/writer.go.
use mathlib.Core.Path.{subst}
use sandal.Prelude.{
  ℕ, ◌+◌, ◌<◌, ◌≡◌, refl, ap, sym, ◌∙◌, inl, inr, Bool, true, false, List, [], ◌∷◌, ◌++◌,
  append-nil, length, if◌then◌else◌, Bool-cases, arith,
}
use sandal.Prelude.Words.{Bytes}
use sandal.Squashfs.Writer.{alloc_inode, Zlib, IsZlib, Writer, append_inode, lookup_key}
use sandal.Squashfs.Extending.{extent}
use sandal.Squashfs.Shapes.{IsShaped, IsWord, write_file_data-IsShaped}
use sandal.Squashfs.Held.{IsHeld-Extends}
use sandal.Squashfs.Files.{write_file_data-IsWritten}
use sandal.Squashfs.Inodes.{Attr, Numbered, numbered, file_inode, placed_inode, build_file_inode}
use sandal.Squashfs.Directories.{InodeInfo}
use sandal.Squashfs.Growing.{Grew, IsTidy, Grew-trans, IsAdded, numbered-IsAdded}
use sandal.Squashfs.Walk.{
  FileHeld, FileHeld-Grew, IsStep, IsStep-trans, IsStep-refl, finish_dir-IsStep,
}
use sandal.Squashfs.Tree.{
  Node, Entries, symlink, regular, directory, special, vanished, no_entries, entry, Walked, walked,
  file_child, dir_child, finish_dir,
}
use sandal.Squashfs.Nodes.{NodeHeld, AllHeld}

module _ (z : Zlib) (keep : Bytes → Bool → Bool) where
  mutual
    unfolding NodeHeld AllHeld

    pub NodeHeld-Grew :
        (path : Bytes) (x : Node) (w v : Writer)
        → Grew z w v
        → NodeHeld z keep path x w
        → NodeHeld z keep path x v
    NodeHeld-Grew path (symlink a t) w v g h = tt
    NodeHeld-Grew path (regular a b n) w v g h = elim (Bool-cases (keep path false)) [
      | inl e ↦ rw e (FileHeld-Grew z a b w v g (rw e at h))
      | inr e ↦ rw e tt
    ]
    NodeHeld-Grew path (directory a es) w v g h = elim (Bool-cases (keep path true)) [
      | inl e ↦ rw e (AllHeld-Grew path es w v g (rw e at h))
      | inr e ↦ rw e tt
    ]
    NodeHeld-Grew path special w v g h = tt
    NodeHeld-Grew path vanished w v g h = tt

    pub AllHeld-Grew :
        (rel : Bytes) (es : Entries) (w v : Writer)
        → Grew z w v
        → AllHeld z keep rel es w
        → AllHeld z keep rel es v
    AllHeld-Grew rel no_entries w v g h = tt
    AllHeld-Grew rel (entry n x rest) w v g (h, hs) =
        (NodeHeld-Grew (rel ++ b'/' ∷ n) x w v g h, AllHeld-Grew rel rest w v g hs)

  -- The walk has succeeded, in so many steps, with a fact about the last writer.
  pub record IsWalked (n d : ℕ) (P : Writer → Type 0) (w : Writer) (r : Walked) : Type 0 where
    pub children : List InodeInfo
    pub last : Writer
    pub answer : r ≡ walked children last
    pub step : IsStep z n d w last
    pub fact : P last

  -- Room for so many inodes and bytes.
  pub record HasRoom (n d : ℕ) (w : Writer) : Type 0 where
    pub for_inodes : w.next_inode + n < 4294967295
    pub for_bytes : extent w + d < 4294967296
    pub for_fragments : length w.fragments + n < 4294967294

  pub skipped :
      (n d : ℕ) (P : Writer → Type 0) (w : Writer)
      → IsTidy z w
      → P w
      → IsWalked n d P w (walked [] w)
  skipped n d P w t p = record {
    children = [];
    last = w;
    answer = refl;
    step = IsStep-refl z n d w t;
    fact = p;
  }

  small_number : (v : Writer) → v.next_inode < 4294967295 → IsWord (numbered v).num
  unfolding numbered alloc_inode
  small_number v h = omega (arith, h)

  file_child-IsWalked :
      IsZlib z
      → (a : Attr) (content name : Bytes) (w : Writer) → IsTidy z w
      → HasRoom 1 (length content) w
      → IsWalked 1
          (length content)
          (FileHeld z a content)
          w
          (file_child name (build_file_inode z a content (length content) w))
  unfolding build_file_inode placed_inode
  file_child-IsWalked law a content name w t room =
      let q =
        write_file_data-IsWritten z law content w t.writer (omega (arith, room.for_bytes))
          (omega (arith, room.for_fragments)) in
      let v : Writer = q.written in
      let n : Numbered = numbered v in
      let b : Numbered → Bytes = λ k. file_inode a (length content) q.placed k in
      let x : Writer = append_inode n.num (b n) n.writer in
      let tidy : IsTidy z v = record {
        writer = q.still;
        known = λ k r e.
            omega (arith, t.known k r (ap (lookup_key k) (sym q.inodes.0) ∙ e), q.inodes.1);
      } in
      let added : IsAdded z n.num (b n) v x =
        numbered-IsAdded z b v tidy (omega (arith, q.inodes.1, room.for_inodes)) in
      record {
        children = (record { inode_num = n.num; inode_type = 2; name = name }) ∷ [];
        last = x;
        answer = rw q.answer refl;
        step = record {
          tidy = added.tidy;
          grew =
              Grew-trans z w v x
                (record {
                  extends = q.extends;
                  more_raw = [];
                  longer_raw = q.inodes.2 ∙ sym (append-nil w.inode_raw);
                  same_places = λ k r e. ap (lookup_key k) q.inodes.0 ∙ e;
                })
                added.grew;
          few_inodes = omega (arith, added.next, q.inodes.1);
          few_bytes = omega (arith, added.same_extent, q.further);
          few_fragments = omega (arith, added.same_count, q.few);
        };
        fact = record {
          placed = q.placed;
          number = n;
          inode = added.inode;
          held = IsHeld-Extends z q.placed (length content) content v x added.grew.extends q.held;
          shaped =
              subst (λ bs. IsShaped bs (length content) q.placed)
                (sym (added.grew.extends.same_size ∙ q.extends.same_size))
                (write_file_data-IsShaped z content (length content) w v q.placed t.writer.some_size
                  (omega (arith, room.for_fragments)) q.answer);
          small = omega (arith, room.for_bytes);
          numbered = small_number v (omega (arith, q.inodes.1, room.for_inodes));
        };
      }

  dir_child-IsWalked :
      (a : Attr) (name path : Bytes) (es : Entries) (w : Writer) {r : Walked}
      → (n d : ℕ) → IsWalked n d (AllHeld z keep path es) w r
      → w.next_inode + n < 4294967295
      → IsWalked (n + 1) d (AllHeld z keep path es) w (dir_child a name r)
  dir_child-IsWalked a name path es w n d p room =
      let added =
        finish_dir-IsStep z a p.children p.last p.step.tidy (omega (arith, p.step.few_inodes)) in
      let v : Writer = (finish_dir a p.children p.last).1 in
      let both : IsStep z (n + 1) (d + 0) w v = IsStep-trans z n 1 d 0 w p.last v p.step added in
      record {
        children =
            (record { inode_num = (finish_dir a p.children p.last).0; inode_type = 1; name = name })
            ∷ [];
        last = v;
        answer = rw p.answer refl;
        step = record {
          tidy = both.tidy;
          grew = both.grew;
          few_inodes = both.few_inodes;
          few_bytes = omega (arith, both.few_bytes);
          few_fragments = both.few_fragments;
        };
        fact = AllHeld-Grew path es p.last v added.grew p.fact;
      }

  -- A child under the path filter.
  pub kept_file :
      IsZlib z
      → (b : Bool) → (a : Attr) (content name : Bytes) (size : ℕ) (w : Writer)
      → size ≡ length content
      → IsTidy z w
      → HasRoom 1 (length content) w
      → IsWalked 1
          (length content)
          (λ v. if b then FileHeld z a content v else Unit)
          w
          (if b then file_child name (build_file_inode z a content size w) else walked [] w)
  kept_file law false a content name size w s t room = skipped 1 (length content) (λ v. Unit) w t tt
  kept_file law true a content name size w s t room =
      rw s (file_child-IsWalked law a content name w t room)

  pub kept_dir :
      (b : Bool)
      → (a : Attr) (name path : Bytes) (es : Entries) (w : Writer) {r : Walked} → (n d : ℕ)
      → IsTidy z w
      → IsWalked n d (AllHeld z keep path es) w r
      → w.next_inode + n < 4294967295
      → IsWalked
          (n + 1)
          d
          (λ v. if b then AllHeld z keep path es v else Unit)
          w
          (if b then dir_child a name r else walked [] w)
  kept_dir false a name path es w n d t p room = skipped (n + 1) d (λ v. Unit) w t tt
  kept_dir true a name path es w n d t p room = dir_child-IsWalked a name path es w n d p room
