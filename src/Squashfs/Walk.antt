-- ===== src/Squashfs/Walk.antt =====
-- What the steps of processDir of pkg/lib/squashfs/writer.go leave of the image before them.

use mathlib.Core.Path.{subst}
use sandal.Prelude.{
  ℕ, ◌+◌, ◌<◌, ◌≤◌, ◌≡◌, refl, ap, sym, ◌∙◌, inl, inr, some, List, [], ◌++◌, append-nil, length,
  get_elem?, ◌==◌, Bool-cases, Option-cases, arith,
}
use sandal.Prelude.Words.{Bytes, u32, le32}
use sandal.Squashfs.Writer.{Zlib, Writer, Placed, append_inode}
use sandal.Squashfs.Reading.{fragment_bytes}
use sandal.Squashfs.Extending.{extent}
use sandal.Squashfs.Shapes.{IsShaped, IsWord}
use sandal.Squashfs.Held.{IsHeld, IsHeld-Extends}
use sandal.Squashfs.Inodes.{
  Attr, Numbered, numbered, file_inode, build_symlink_inode, build_dir_inode, dir_inode,
  inode_header,
}
use sandal.Squashfs.Directories.{InodeInfo, build_dir_entries}
use sandal.Squashfs.Growing.{
  Grew, IsTidy, Grew-refl, Grew-trans, IsInode, IsInode-Grew, IsAdded, numbered-IsAdded,
}
use sandal.Squashfs.Tree.{finish_dir}

module _ (z : Zlib) where
  -- A file of the image: the inode of a number says where its data are, and they are there.
  pub record FileHeld (a : Attr) (content : Bytes) (w : Writer) : Type 0 where
    pub placed : Placed
    pub number : Numbered
    pub inode : IsInode z number.num (file_inode a (length content) placed number) w
    pub held : IsHeld z placed (length content) content w
    pub shaped : IsShaped w.block_size (length content) placed
    pub small : IsWord (length content)
    pub numbered : IsWord number.num

  pub FileHeld-Grew :
      (a : Attr) (content : Bytes) (w v : Writer)
      → Grew z w v
      → FileHeld a content w
      → FileHeld a content v
  FileHeld-Grew a content w v g h = record {
    placed = h.placed;
    number = h.number;
    inode = IsInode-Grew z h.number.num _ w v g h.inode;
    held = IsHeld-Extends z h.placed (length content) content w v g.extends h.held;
    shaped = subst (λ bs. IsShaped bs (length content) h.placed) (sym g.extends.same_size) h.shaped;
    small = h.small;
    numbered = h.numbered;
  }

  -- What a step of the walk has done to the writer, with at most `n` inodes and `d` bytes.
  pub record IsStep (n d : ℕ) (w v : Writer) : Type 0 where
    pub tidy : IsTidy z v
    pub grew : Grew z w v
    pub few_inodes : v.next_inode ≤ w.next_inode + n
    pub few_bytes : extent v ≤ extent w + d
    pub few_fragments : length v.fragments ≤ length w.fragments + n

  pub IsStep-trans :
      (m n c d : ℕ) (u v w : Writer) → IsStep m c u v → IsStep n d v w → IsStep (m + n) (c + d) u w
  IsStep-trans m n c d u v w p q = record {
    tidy = q.tidy;
    grew = Grew-trans z u v w p.grew q.grew;
    few_inodes = omega (arith, p.few_inodes, q.few_inodes);
    few_bytes = omega (arith, p.few_bytes, q.few_bytes);
    few_fragments = omega (arith, p.few_fragments, q.few_fragments);
  }

  pub IsStep-refl : (n d : ℕ) (w : Writer) → IsTidy z w → IsStep n d w w
  IsStep-refl n d w i = record {
    tidy = i;
    grew = Grew-refl z w;
    few_inodes = omega arith;
    few_bytes = omega arith;
    few_fragments = omega arith;
  }

  pub IsAdded-IsStep : (k : ℕ) (b : Bytes) (w v : Writer) → IsAdded z k b w v → IsStep 1 0 w v
  IsAdded-IsStep k b w v i = record {
    tidy = i.tidy;
    grew = i.grew;
    few_inodes = omega (arith, i.next);
    few_bytes = omega (arith, i.same_extent);
    few_fragments = omega (arith, i.same_count);
  }

  -- The directory table and the fixups are no part of what a file needs.
  abbrev with_dirs : Bytes → List (ℕ × ℕ) → List (ℕ × ℕ) → Writer → Writer
  with_dirs b e i w = record w { dir_raw = b; dir_entry_fixups = e; dir_inode_fixups = i }

  with_dirs-fragment :
      (b : Bytes) (e i : List (ℕ × ℕ)) (k : ℕ) (w : Writer)
      → fragment_bytes z k (with_dirs b e i w) ≡ fragment_bytes z k w
  unfolding fragment_bytes
  with_dirs-fragment b e i k w = elim (Option-cases (get_elem? w.fragments k)) [
    | inl q ↦ rw q refl
    | inr (f, q) ↦ rw q refl
  ]

  with_dirs-IsStep :
      (b : Bytes) (e i : List (ℕ × ℕ)) (w : Writer) → IsTidy z w → IsStep 0 0 w (with_dirs b e i w)
  with_dirs-IsStep b e i w t = record {
    tidy = record {
      writer = record {
        position = t.writer.position;
        some_size = t.writer.some_size;
        small_size = t.writer.small_size;
        buffered = t.writer.buffered;
        inside = t.writer.inside;
      };
      known = t.known;
    };
    grew = record {
      extends = record {
        more = [];
        same_size = refl;
        longer = sym (append-nil w.out);
        fragment_longer =
            λ k c f. ([], with_dirs-fragment b e i k w ∙ (f ∙ ap some (sym (append-nil c))));
      };
      more_raw = [];
      longer_raw = sym (append-nil w.inode_raw);
      same_places = λ k q f. f;
    };
    few_inodes = omega arith;
    few_bytes = omega arith;
    few_fragments = omega arith;
  }

  pub build_symlink_inode-IsStep :
      (a : Attr) (target : Bytes) (w : Writer)
      → IsTidy z w
      → w.next_inode < 4294967295
      → IsStep 1 0 w (build_symlink_inode a target w).1
  unfolding build_symlink_inode
  build_symlink_inode-IsStep a target w t h = IsAdded-IsStep _ _ w _ (
      numbered-IsAdded z
        (λ n.
          inode_header 3 511 n.uid n.gid a.mtime n.num
          ++ (le32 1 ++ (le32 (u32 (length target)) ++ target)))
        w t h)

  pub finish_dir-IsStep :
      (a : Attr) (cs : List InodeInfo) (w : Writer)
      → IsTidy z w
      → w.next_inode < 4294967295
      → IsStep 1 0 w (finish_dir a cs w).1
  unfolding finish_dir build_dir_entries build_dir_inode
  finish_dir-IsStep a cs w t h =
      let d : ℕ × ℕ × Writer = build_dir_entries cs w in
      let v : Writer = d.2 in
      let n : Numbered = numbered v in
      let b : Numbered → Bytes = λ k. (dir_inode a (length cs) (u32 (d.1 + 3)) k).0 in
      let x : Writer = append_inode n.num (b n) n.writer in
      let first : IsStep 0 0 w v =
        with_dirs-IsStep v.dir_raw v.dir_entry_fixups w.dir_inode_fixups w t in
      let second : IsStep 1 0 v x =
        IsAdded-IsStep n.num (b n) v x (numbered-IsAdded z b v first.tidy h) in
      let both : IsStep 1 0 w x = IsStep-trans 0 1 0 0 w v x first second in
      elim (Bool-cases (length cs == 0)) [
        | inl e ↦ rw e both
        | inr e ↦ rw e (
            IsStep-trans 1 0 0 0 w x _ both
              (with_dirs-IsStep x.dir_raw x.dir_entry_fixups _ x second.tidy))
      ]
