-- ===== src/Squashfs/Fragments.antt =====
-- The fragments of pkg/lib/squashfs/writer.go: the piece that addFragment places is read back.
use sandal.Prelude.{
  ℕ, ◌+◌, ◌%◌, ◌<◌, ◌≤◌, ◌≡◌, refl, ap, sym, ◌∙◌, inl, inr, true, ◌&&◌, some, [], ◌++◌, append-nil,
  length, take, ltb, leb, ◌==◌, if◌then◌else◌, Bool-cases, arith, take-append_self,
  drop-append_self, length-append,
}
use sandal.Prelude.Words.{Bytes}
use sandal.Squashfs.Writer.{Zlib, IsZlib, Writer, flush_frag_block, add_fragment}
use sandal.Squashfs.Reading.{fragment_bytes, cut_out}
use sandal.Squashfs.Blocks.{stored-le}
use sandal.Squashfs.Extending.{
  IsWriter, Extends, SameInodes, extent, Extends-refl, Extends-trans, grown, fragment_bytes-buffer,
  flush_frag_block-IsWriter, flush_frag_block-Extends,
}

module _ (z : Zlib) where
  -- After a flush the buffer is empty, and there is at most one more fragment.
  pub flush_frag_block-buffer :
      (w : Writer)
      → (length (flush_frag_block z w).frag_buf ≡ 0)
        × (length (flush_frag_block z w).fragments ≤ length w.fragments + 1)
        × ((flush_frag_block z w).block_size ≡ w.block_size)
        × (extent (flush_frag_block z w) ≤ extent w)
        × SameInodes w (flush_frag_block z w)
  unfolding flush_frag_block
  flush_frag_block-buffer w = elim (Bool-cases (length w.frag_buf == 0)) [
    | inl e ↦ rw e (ground arith, omega arith, refl, omega arith, (refl, refl, refl))
    | inr e ↦ rw e (
      refl,
      omega (arith, length-append {0} w.fragments),
      refl,
      omega (arith, stored-le z w.frag_buf),
      (refl, refl, refl),
    )
  ]

  -- The writer whose buffer has room for a piece.
  abbrev roomy : Bytes → Writer → Writer
  roomy b w =
      if ltb w.block_size (length w.frag_buf + length b) && ltb 0 (length w.frag_buf)
      then flush_frag_block z w
      else w

  record IsRoomy (b : Bytes) (w v : Writer) : Type 0 where
    still : IsWriter z v
    extends : Extends z w v
    fits : length v.frag_buf + length b ≤ v.block_size
    few : length v.fragments ≤ length w.fragments + 1
    no_further : extent v ≤ extent w
    inodes : SameInodes w v

  roomy-IsRoomy :
      IsZlib z
      → (b : Bytes) (w : Writer) → IsWriter z w
      → length b ≤ w.block_size
      → IsRoomy b w (roomy b w)
  roomy-IsRoomy law b w i h =
      elim (Bool-cases
        (ltb w.block_size (length w.frag_buf + length b) && ltb 0 (length w.frag_buf))) [
          | inl e ↦
              (let (empty, few, same, no_further, inodes) = flush_frag_block-buffer w in
                rw e (record {
                  still = flush_frag_block-IsWriter z law w i;
                  extends = flush_frag_block-Extends z law w i;
                  fits = omega arith;
                  few = few;
                  no_further = no_further;
                  inodes = inodes;
                }))
          | inr e ↦ rw e (record {
            still = i;
            extends = Extends-refl z w;
            fits = ground arith;
            few = omega arith;
            no_further = omega arith;
            inodes = (refl, refl, refl);
          })
        ]

  pub record IsPlaced (b : Bytes) (w : Writer) (r : ℕ × ℕ × Writer) : Type 0 where
    pub still : IsWriter z r.2
    pub extends : Extends z w r.2
    pub few : length r.2.fragments ≤ length w.fragments + 1
    pub inodes : SameInodes w r.2
    pub further : extent r.2 ≤ extent w + length b
    pub number : r.0 < 4294967295
    pub found : cut_out r.1 (length b) (fragment_bytes z r.0 r.2) ≡ some b

  cut_out-append : (x b : Bytes) → cut_out (length x) (length b) (some (x ++ b)) ≡ some b
  cut_out-append x b =
      let e : leb (length x + length b) (length (x ++ b)) ≡ true =
        ground (arith, length-append x b) in
      rw (e, drop-append_self x b)
        (ap some (ap (take (length b)) (sym (append-nil b)) ∙ take-append_self b []))

  buffered-Extends :
      (b : Bytes) (v : Writer)
      → IsWriter z v
      → Extends z v (record v { frag_buf = v.frag_buf ++ b })
  buffered-Extends b v i =
      let t : Writer = record v { frag_buf = v.frag_buf ++ b } in
      record {
        more = [];
        same_size = refl;
        longer = sym (append-nil v.out);
        fragment_longer =
            grown z v t [] b [] i (sym (append-nil v.out)) (sym (append-nil v.fragments))
              (fragment_bytes-buffer z t);
      }

  pub add_fragment-IsPlaced :
      IsZlib z
      → (b : Bytes) (w : Writer) → IsWriter z w
      → length b ≤ w.block_size
      → length w.fragments < 4294967294
      → IsPlaced b w (add_fragment z b w)
  unfolding add_fragment
  add_fragment-IsPlaced law b w i h few =
      let v : Writer = roomy b w in
      let t : Writer = record v { frag_buf = v.frag_buf ++ b } in
      let q : IsRoomy b w v = roomy-IsRoomy law b w i h in
      let n : length v.fragments % 4294967296 ≡ length v.fragments = omega (arith, q.few) in
      let o : length v.frag_buf % 4294967296 ≡ length v.frag_buf =
        omega (arith, q.still.buffered, q.still.small_size) in
      record {
        still = record {
          position = q.still.position;
          some_size = q.still.some_size;
          small_size = q.still.small_size;
          buffered = omega (arith, q.fits, length-append v.frag_buf b);
          inside = q.still.inside;
        };
        extends = Extends-trans z w v t q.extends (buffered-Extends b v q.still);
        few = q.few;
        inodes = q.inodes;
        further = omega (arith, q.no_further, length-append v.frag_buf b);
        number = omega (arith, q.few);
        found = rw (n, o, fragment_bytes-buffer z t) (cut_out-append v.frag_buf b);
      }
