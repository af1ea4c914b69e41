-- ===== src/Squashfs/Growing.antt =====
-- What the inodes and the directories of pkg/lib/squashfs/writer.go leave of the files before them:
-- an inode that is written stays where its number says, and so does the file's data.
use mathlib.Core.Path.{subst}
use sandal.Prelude.{
  ℕ, ◌+◌, ◌%◌, ◌<◌, ◌≤◌, ◌≡◌, refl, ap, sym, ◌∙◌, inl, inr, some, List, [], ◌∷◌, ◌++◌, append_assoc,
  append-nil, length, take, drop, Option-cases, arith, take-append_self, take-append_le,
  drop-append_self, length-append, length-drop, get_elem?,
}
use sandal.Prelude.Words.{Bytes, u16, u32}
use sandal.Squashfs.Writer.{Zlib, Writer, alloc_inode, lookup_id, lookup_key, append_inode}
use sandal.Squashfs.Reading.{fragment_bytes}
use sandal.Squashfs.Blocks.{drop-append_le}
use sandal.Squashfs.Extending.{IsWriter, Extends, extent, Extends-refl, Extends-trans}
use sandal.Squashfs.Inodes.{Numbered, numbered}

-- Only the table of owners may change.
lookup_id-owners :
    (id : ℕ) (w : Writer)
    → (t : List ℕ) × (m : List (ℕ × ℕ)) × ((lookup_id id w).1
        ≡ record w { id_table = t; id_map = m })
unfolding lookup_id
lookup_id-owners id w = elim (Option-cases (lookup_key id w.id_map)) [
  | inl e ↦ (w.id_table ++ id ∷ [], (id, u16 (length w.id_table)) ∷ w.id_map, rw e refl)
  | inr (i, e) ↦ (w.id_table, w.id_map, rw e refl)
]

-- A number is taken, and the tables of owners may change.
abbrev Renumbered : Writer → Writer → Type 0
Renumbered w v =
    (t : List ℕ) × (m : List (ℕ × ℕ)) × (v
      ≡ record w { next_inode = u32 (w.next_inode + 1); id_table = t; id_map = m })

numbered-Renumbered :
    (w : Writer) → Renumbered w (numbered w).writer × ((numbered w).num ≡ w.next_inode)
unfolding numbered alloc_inode
numbered-Renumbered w =
    let a : Writer = (alloc_inode w).1 in
    let u : Writer = (lookup_id 0 a).1 in
    let (t, m, e) = lookup_id-owners 0 a in
    let (s, k, f) = lookup_id-owners 0 u in
    let with_owners : Writer → Writer = λ x. record x { id_table = s; id_map = k } in
    ((s, k, f ∙ ap with_owners e), refl)

module _ (z : Zlib) where
  -- The image and the inode table are longer, and the inodes keep their places.
  pub record Grew (w v : Writer) : Type 0 where
    pub extends : Extends z w v
    pub more_raw : Bytes
    pub longer_raw : v.inode_raw ≡ w.inode_raw ++ more_raw
    pub same_places :
        (k q : ℕ) → lookup_key k w.inode_pos ≡ some q → lookup_key k v.inode_pos ≡ some q

  -- The writer is in order, and has given out every number that it knows.
  pub record IsTidy (w : Writer) : Type 0 where
    pub writer : IsWriter z w
    pub known : (k q : ℕ) → lookup_key k w.inode_pos ≡ some q → k < w.next_inode

  pub Grew-refl : (w : Writer) → Grew w w
  Grew-refl w = record {
    extends = Extends-refl z w;
    more_raw = [];
    longer_raw = sym (append-nil w.inode_raw);
    same_places = λ k q e. e;
  }

  pub Grew-trans : (u v w : Writer) → Grew u v → Grew v w → Grew u w
  Grew-trans u v w p q = record {
    extends = Extends-trans z u v w p.extends q.extends;
    more_raw = p.more_raw ++ q.more_raw;
    longer_raw =
        q.longer_raw
        ∙ (ap (λ o. o ++ q.more_raw) p.longer_raw ∙ append_assoc u.inode_raw p.more_raw q.more_raw);
    same_places = λ k r e. q.same_places k r (p.same_places k r e);
  }

  -- The inode of a number has these bytes.
  pub record IsInode (num : ℕ) (b : Bytes) (w : Writer) : Type 0 where
    pub place : ℕ
    pub found : lookup_key num w.inode_pos ≡ some place
    pub inside : place + length b ≤ length w.inode_raw
    pub bytes : take (length b) (drop place w.inode_raw) ≡ b

  pub IsInode-Grew :
      (num : ℕ) (b : Bytes) (w v : Writer) → Grew w v → IsInode num b w → IsInode num b v
  IsInode-Grew num b w v g i = record {
    place = i.place;
    found = g.same_places num i.place i.found;
    inside = omega (arith, i.inside, ap length g.longer_raw, length-append w.inode_raw g.more_raw);
    bytes =
        ap (λ r. take (length b) (drop i.place r)) g.longer_raw
        ∙ (ap (take (length b))
              (drop-append_le i.place w.inode_raw g.more_raw (omega (arith, i.inside)))
            ∙ (take-append_le (length b) (drop i.place w.inode_raw) g.more_raw
                  (omega (arith, i.inside, length-drop i.place w.inode_raw))
                ∙ i.bytes));
  }

  -- Taking a number and writing its inode.
  pub record IsAdded (num : ℕ) (b : Bytes) (w v : Writer) : Type 0 where
    pub tidy : IsTidy v
    pub grew : Grew w v
    pub inode : IsInode num b v
    pub next : v.next_inode ≡ w.next_inode + 1
    pub same_extent : extent v ≡ extent w
    pub same_count : length v.fragments ≡ length w.fragments

  same_fragment :
      (k : ℕ) (b : Bytes) (w : Writer) (t : List ℕ) (m : List (ℕ × ℕ))
      → fragment_bytes z k (
          append_inode w.next_inode b
            (record w { next_inode = u32 (w.next_inode + 1); id_table = t; id_map = m }))
        ≡ fragment_bytes z k w
  unfolding fragment_bytes append_inode
  same_fragment k b w t m = elim (Option-cases (get_elem? w.fragments k)) [
    | inl e ↦ rw e refl
    | inr (f, e) ↦ rw e refl
  ]

  append_inode-IsAdded :
      (b : Bytes) (w : Writer) (t : List ℕ) (m : List (ℕ × ℕ))
      → IsTidy w
      → w.next_inode < 4294967295
      → IsAdded w.next_inode b w (
          append_inode w.next_inode b
            (record w { next_inode = u32 (w.next_inode + 1); id_table = t; id_map = m }))
  unfolding append_inode
  append_inode-IsAdded b w t m i h =
      let u : (w.next_inode + 1) % 4294967296 ≡ w.next_inode + 1 = omega arith in
      record {
        tidy = record {
          writer = record {
            position = i.writer.position;
            some_size = i.writer.some_size;
            small_size = i.writer.small_size;
            buffered = i.writer.buffered;
            inside = i.writer.inside;
          };
          known = λ k q e. ground (arith, u, i.known k q);
        };
        grew = record {
          extends = record {
            more = [];
            same_size = refl;
            longer = sym (append-nil w.out);
            fragment_longer =
                λ k c e. ([], same_fragment k b w t m ∙ (e ∙ ap some (sym (append-nil c))));
          };
          more_raw = b;
          longer_raw = refl;
          same_places = λ k q e. ground (arith, i.known k q);
        };
        inode = record {
          place = length w.inode_raw;
          found = ground arith;
          inside = omega (arith, length-append w.inode_raw b);
          bytes =
              ap (take (length b)) (drop-append_self w.inode_raw b ∙ sym (append-nil b))
              ∙ take-append_self b [];
        };
        next = u;
        same_extent = refl;
        same_count = refl;
      }

  -- An inode whose bytes hold its own number.
  pub numbered-IsAdded :
      (b : Numbered → Bytes) (w : Writer)
      → IsTidy w
      → w.next_inode < 4294967295
      → IsAdded
          (numbered w).num
          (b (numbered w))
          w
          (append_inode (numbered w).num (b (numbered w)) (numbered w).writer)
  numbered-IsAdded b w i h =
      let ((t, m, e), f) = numbered-Renumbered w in
      let x : Bytes = b (numbered w) in
      subst (λ v. IsAdded (numbered w).num x w (append_inode (numbered w).num x v)) (sym e)
        (subst
          (λ n. IsAdded n x w (
            append_inode n x
              (record w { next_inode = u32 (w.next_inode + 1); id_table = t; id_map = m })))
          (sym f) (append_inode-IsAdded x w t m i h))
