-- ===== src/Squashfs/Extending.antt =====
-- What the writer of pkg/lib/squashfs/writer.go wrote stays readable: each operation extends the
-- image and the fragments.

use sandal.Prelude.{
  ℕ, ◌+◌, ◌-◌, ◌<◌, ◌≤◌, ◌≡◌, refl, ap, sym, ◌∙◌, inl, inr, none, some, List, [], ◌∷◌, ◌++◌,
  append_assoc, append-nil, length, drop, get_elem?, All, ◌==◌, if◌then◌else◌, Bool-cases,
  Option-cases, arith, take-append_le, drop-append_self, length-append, length-drop,
}
use sandal.Prelude.Words.{Bytes}
use sandal.Squashfs.Writer.{
  Zlib, IsZlib, Fragment, Writer, header_size, stored, write_out, write_data_block,
  flush_frag_block,
}
use sandal.Squashfs.Reading.{stored_length, read_block, fragment_bytes}
use sandal.Squashfs.Blocks.{
  drop-append_le, get_elem?-append, get_elem?-last, All-snoc, get_elem?-past, All-get_elem?,
  stored-IsBlock,
}

-- The position that the image has once the buffer is on the disk, at most.
abbrev pub extent : Writer → ℕ
extent w = w.data_pos + length w.frag_buf

-- The inodes and their numbers are the same.
abbrev pub SameInodes : Writer → Writer → Type 0
SameInodes w v =
    (v.inode_pos ≡ w.inode_pos) × (v.next_inode ≡ w.next_inode) × (v.inode_raw ≡ w.inode_raw)

module _ (z : Zlib) where
  -- The writer between two operations.
  pub record IsWriter (w : Writer) : Type 0 where
    pub position : w.data_pos ≡ header_size + length w.out
    pub some_size : 0 < w.block_size
    pub small_size : w.block_size < 16777216
    pub buffered : length w.frag_buf ≤ w.block_size
    pub inside : All (λ f. f.start - header_size + stored_length f.size ≤ length w.out) w.fragments

  -- The image is longer, and so may be what the fragments hold.
  pub record Extends (w v : Writer) : Type 0 where
    pub more : Bytes
    pub same_size : v.block_size ≡ w.block_size
    pub longer : v.out ≡ w.out ++ more
    pub fragment_longer :
        (i : ℕ) (b : Bytes)
        → fragment_bytes z i w ≡ some b
        → (x : Bytes) × (fragment_bytes z i v ≡ some (b ++ x))

  pub Extends-refl : (w : Writer) → Extends w w
  Extends-refl w = record {
    more = [];
    same_size = refl;
    longer = sym (append-nil w.out);
    fragment_longer = λ i b e. ([], e ∙ ap some (sym (append-nil b)));
  }

  pub Extends-trans : (u v w : Writer) → Extends u v → Extends v w → Extends u w
  Extends-trans u v w p q = record {
    more = p.more ++ q.more;
    same_size = q.same_size ∙ p.same_size;
    longer = q.longer ∙ (ap (λ o. o ++ q.more) p.longer ∙ append_assoc u.out p.more q.more);
    fragment_longer = λ i b e.
        (let (x, f) = p.fragment_longer i b e in
          let (y, g) = q.fragment_longer i (b ++ x) f in
          (x ++ y, g ∙ ap some (append_assoc b x y)));
  }

  -- A block that stands in the image stands in a longer one.
  read_block-longer :
      (f : Fragment) (o more : Bytes)
      → f.start - header_size + stored_length f.size ≤ length o
      → read_block z f.size (drop (f.start - header_size) (o ++ more))
        ≡ read_block z f.size (drop (f.start - header_size) o)
  read_block-longer f o more h =
      rw
        (
          drop-append_le (f.start - header_size) o more (omega arith),
          take-append_le (stored_length f.size) (drop (f.start - header_size) o) more
              (omega (arith, length-drop (f.start - header_size) o)),
        )
        refl

  All-inside :
      (fs : List Fragment) (o more : Bytes)
      → All (λ f. f.start - header_size + stored_length f.size ≤ length o) fs
      → All (λ f. f.start - header_size + stored_length f.size ≤ length (o ++ more)) fs
  All-inside [] o more h = tt
  All-inside (f ∷ fs) o more (h, hs) =
      (omega (arith, length-append o more), All-inside fs o more hs)

  -- A fragment on the disk, and the one in the buffer.
  fragment_bytes-some :
      (w : Writer) (i : ℕ) {f : Fragment}
      → get_elem? w.fragments i ≡ some f
      → fragment_bytes z i w ≡ read_block z f.size (drop (f.start - header_size) w.out)
  unfolding fragment_bytes
  fragment_bytes-some w i e = rw e refl

  fragment_bytes-none :
      (w : Writer) (i : ℕ) (b : Bytes)
      → get_elem? w.fragments i ≡ none
      → fragment_bytes z i w ≡ some b
      → (i ≡ length w.fragments) × (b ≡ w.frag_buf)
  unfolding fragment_bytes
  fragment_bytes-none w i b e f =
      let g : (if i == length w.fragments then some w.frag_buf else none) ≡ some b = rw e at f in
      ground arith

  pub fragment_bytes-buffer :
      (w : Writer) → fragment_bytes z (length w.fragments) w ≡ some w.frag_buf
  unfolding fragment_bytes
  fragment_bytes-buffer w = rw (get_elem?-past w.fragments) (ground arith)

  pub grown :
      (w v : Writer) (more x : Bytes) (fs : List Fragment)
      → IsWriter w
      → v.out ≡ w.out ++ more
      → v.fragments ≡ w.fragments ++ fs
      → fragment_bytes z (length w.fragments) v ≡ some (w.frag_buf ++ x)
      → (k : ℕ) (c : Bytes) → fragment_bytes z k w ≡ some c
      → (y : Bytes) × (fragment_bytes z k v ≡ some (c ++ y))
  grown w v more x fs i o g l k c e = elim (Option-cases (get_elem? w.fragments k)) [
    | inl n ↦ (let (at_end, same) = fragment_bytes-none w k c n e in (x, rw (at_end, same) l))
    | inr (f, n) ↦ (
      [],
      fragment_bytes-some v k (ap (λ t. get_elem? t k) g ∙ get_elem?-append w.fragments fs k n)
          ∙ (ap (λ t. read_block z f.size (drop (f.start - header_size) t)) o
              ∙ (read_block-longer f w.out more (
                    All-get_elem? (λ q. q.start - header_size + stored_length q.size ≤ length w.out)
                      w.fragments k i.inside n)
                  ∙ (sym (fragment_bytes-some w k n) ∙ (e ∙ ap some (sym (append-nil c)))))),
    )
  ]

  pub write_data_block-IsWriter :
      (b : Bytes) (w : Writer) → IsWriter w → IsWriter (write_data_block z b w).1
  unfolding write_data_block
  write_data_block-IsWriter b w i = record {
    position = omega (arith, i.position, length-append w.out (stored z b).0);
    some_size = i.some_size;
    small_size = i.small_size;
    buffered = i.buffered;
    inside = All-inside w.fragments w.out (stored z b).0 i.inside;
  }

  pub write_data_block-Extends :
      (b : Bytes) (w : Writer) → IsWriter w → Extends w (write_data_block z b w).1
  unfolding write_data_block
  write_data_block-Extends b w i =
      let v : Writer = write_out (stored z b).0 w in
      record {
        more = (stored z b).0;
        same_size = refl;
        longer = refl;
        fragment_longer =
            grown w v (stored z b).0 [] [] i refl (sym (append-nil w.fragments))
              (fragment_bytes-buffer v ∙ ap some (sym (append-nil w.frag_buf)));
      }

  -- The fragment that a full buffer becomes.
  flushed : Writer → Writer
  flushed w = record (write_out (stored z w.frag_buf).0 w) {
    fragments = w.fragments ++ (record { start = w.data_pos; size = (stored z w.frag_buf).1 }) ∷ [];
    frag_buf = [];
  }

  flushed-IsWriter : IsZlib z → (w : Writer) → IsWriter w → IsWriter (flushed w)
  unfolding flushed
  flushed-IsWriter law w i =
      let (_, l) = stored-IsBlock z law w.frag_buf (omega (arith, i.buffered, i.small_size)) in
      record {
        position = omega (arith, i.position, length-append w.out (stored z w.frag_buf).0);
        some_size = i.some_size;
        small_size = i.small_size;
        buffered = omega arith;
        inside =
            All-snoc _ w.fragments _ (All-inside w.fragments w.out (stored z w.frag_buf).0 i.inside)
              (omega (arith, l, i.position, length-append w.out (stored z w.frag_buf).0));
      }

  flushed-Extends : IsZlib z → (w : Writer) → IsWriter w → Extends w (flushed w)
  unfolding flushed
  flushed-Extends law w i =
      let (reads, _) = stored-IsBlock z law w.frag_buf (omega (arith, i.buffered, i.small_size)) in
      let x : Bytes = (stored z w.frag_buf).0 in
      let at_end : w.data_pos - header_size ≡ length w.out = omega (arith, i.position) in
      record {
        more = x;
        same_size = refl;
        longer = refl;
        fragment_longer = grown w (flushed w) x [] _ i refl refl (
            fragment_bytes-some (flushed w) (length w.fragments) (get_elem?-last w.fragments _)
            ∙ (ap (λ t. read_block z (stored z w.frag_buf).1 (drop t (w.out ++ x))) at_end
                ∙ (ap (read_block z (stored z w.frag_buf).1)
                      (drop-append_self w.out x ∙ sym (append-nil x))
                    ∙ (reads [] ∙ ap some (sym (append-nil w.frag_buf))))));
      }

  pub flush_frag_block-IsWriter :
      IsZlib z → (w : Writer) → IsWriter w → IsWriter (flush_frag_block z w)
  unfolding flush_frag_block flushed
  flush_frag_block-IsWriter law w i = elim (Bool-cases (length w.frag_buf == 0)) [
    | inl e ↦ rw e i
    | inr e ↦ rw e (flushed-IsWriter law w i)
  ]

  pub flush_frag_block-Extends :
      IsZlib z → (w : Writer) → IsWriter w → Extends w (flush_frag_block z w)
  unfolding flush_frag_block flushed
  flush_frag_block-Extends law w i = elim (Bool-cases (length w.frag_buf == 0)) [
    | inl e ↦ rw e (Extends-refl w)
    | inr e ↦ rw e (flushed-Extends law w i)
  ]
