-- ===== src/Squashfs/Shapes.antt =====
-- The numbers that writeFileDataStreamed of pkg/lib/squashfs/writer.go gives fit their fields.
use native.Mathlib.Nat.{div-eq-sub-div, div-eq_of_lt}
use sandal.Prelude.{
  ℕ, zero, suc, ◌+◌, ◌-◌, ◌/◌, ◌<◌, ◌≤◌, ◌≡◌, ap, ◌∙◌, inl, inr, ◌&&◌, List, [], ◌∷◌, ◌++◌, length,
  take, drop, ltb, leb, ◌==◌, if◌then◌else◌, Bool-cases, arith, All, length-append,
}
use sandal.Prelude.Words.{Bytes, u32}
use sandal.Squashfs.Writer.{
  Zlib, Writer, Placed, Streamed, streamed, unexpected_eof, no_fuel, stored, write_data_block,
  add_fragment, stream_tail, stream_blocks, write_file_data,
}
use sandal.Squashfs.Fragments.{flush_frag_block-buffer}

abbrev pub IsWord : ℕ → Type 0
IsWord n = n < 4294967296

-- The fields fit 32 bits, and there are as many size words as a file of this size has blocks: the
-- whole ones, and one more for a rest that is in no fragment.
pub record IsShaped (bs size : ℕ) (p : Placed) : Type 0 where
  pub start : IsWord p.start_block
  pub frag : IsWord p.frag_idx
  pub off : IsWord p.frag_off
  pub words : All IsWord p.block_sizes
  pub count :
      length p.block_sizes
      ≡ (if p.frag_idx == 4294967295 then (size + (bs - 1)) / bs else size / bs)

AllShaped : ℕ → ℕ → Streamed → Type 0
AllShaped bs size (streamed p w) = IsShaped bs size p
AllShaped bs size unexpected_eof = Unit
AllShaped bs size no_fuel = Unit

All-snoc : (ns : List ℕ) (n : ℕ) → All IsWord ns → IsWord n → All IsWord (ns ++ n ∷ [])
All-snoc [] n h k = (k, tt)
All-snoc (m ∷ ns) n (l, h) k = (l, All-snoc ns n h k)

module _ (z : Zlib) where
  stored-IsWord : (b : Bytes) → IsWord (stored z b).1
  unfolding stored
  stored-IsWord b = ground arith

  add_fragment_lem :
      (b : Bytes) (w : Writer)
      → length w.fragments + 1 < 4294967295
      → ((add_fragment z b w).0 < 4294967295) × IsWord (add_fragment z b w).1
  unfolding add_fragment
  add_fragment_lem b w h =
      let few = (flush_frag_block-buffer z w).1 in
      elim (Bool-cases
        (ltb w.block_size (length w.frag_buf + length b) && ltb 0 (length w.frag_buf))) [
          | inl e ↦ rw e (omega (arith, few, h), omega arith)
          | inr e ↦ rw e (omega (arith, h), omega arith)
        ]

  -- What is left, in blocks, is what the size words do not count yet.
  record IsCounted (bs size remaining : ℕ) (sizes : List ℕ) : Type 0 where
    floor : length sizes + remaining / bs ≡ size / bs
    ceiling : length sizes + (remaining + (bs - 1)) / bs ≡ (size + (bs - 1)) / bs

  IsCounted-next :
      (bs size remaining n : ℕ) (sizes : List ℕ)
      → 0 < bs
      → bs ≤ remaining
      → IsCounted bs size remaining sizes
      → IsCounted bs size (remaining - bs) (sizes ++ n ∷ [])
  IsCounted-next bs size remaining n sizes h k c =
      let a : remaining / bs ≡ (remaining - bs) / bs + 1 = div-eq-sub-div h k in
      let b : (remaining + (bs - 1)) / bs ≡ (remaining + (bs - 1) - bs) / bs + 1 =
        div-eq-sub-div h (omega (arith, k)) in
      let same : remaining + (bs - 1) - bs ≡ remaining - bs + (bs - 1) = omega (arith, h, k) in
      let d : (remaining + (bs - 1)) / bs ≡ (remaining - bs + (bs - 1)) / bs + 1 =
        b ∙ ap (λ x. x / bs + 1) same in
      record {
        floor = omega (arith, a, c.floor, length-append sizes (n ∷ []));
        ceiling = omega (arith, d, c.ceiling, length-append sizes (n ∷ []));
      }

  stream_tail-AllShaped :
      (start size remaining : ℕ) (sizes : List ℕ) (b : Bytes) (w : Writer) (bs : ℕ)
      → 0 < bs
      → IsWord start
      → All IsWord sizes
      → length w.fragments + 1 < 4294967295
      → remaining < bs
      → IsCounted bs size remaining sizes
      → AllShaped bs size (stream_tail z start remaining sizes b w)
  unfolding stream_tail AllShaped
  stream_tail-AllShaped start size remaining sizes b w bs pos s ws few short c =
      elim (Bool-cases (remaining == 0)) [
        | inl e ↦
            (let n : remaining ≡ 0 = ground (arith, e) in
              let over : (remaining + (bs - 1)) / bs ≡ 0 = div-eq_of_lt (omega (arith, n, pos)) in
              rw e (record {
                start = s;
                frag = omega arith;
                off = omega arith;
                words = ws;
                count = omega (arith, c.ceiling, over);
              }))
        | inr e ↦ elim (Bool-cases (leb remaining (length b))) [
          | inl d ↦
              (let (number, off) = add_fragment_lem (take remaining b) w few in
                let under : remaining / bs ≡ 0 = div-eq_of_lt short in
                rw (e, d)
                  (record {
                    start = s;
                    frag = omega (arith, number);
                    off = off;
                    words = ws;
                    count = ground (arith, number, c.floor, under);
                  }))
          | inr d ↦ rw (e, d) tt
        ]
      ]

  stream_blocks-AllShaped :
      (fuel start size remaining : ℕ) (sizes : List ℕ) (b : Bytes) (w : Writer)
      → 0 < w.block_size
      → IsWord start
      → All IsWord sizes
      → length w.fragments + 1 < 4294967295
      → IsCounted w.block_size size remaining sizes
      → AllShaped w.block_size size (stream_blocks z fuel start remaining sizes b w)
  unfolding stream_blocks write_data_block AllShaped
  stream_blocks-AllShaped zero start size remaining sizes b w pos s ws few c = tt
  stream_blocks-AllShaped (suc fuel) start size remaining sizes b w pos s ws few c =
      let r : ℕ × Writer = write_data_block z (take w.block_size b) w in
      elim (Bool-cases (leb w.block_size remaining)) [
        | inl e ↦ elim (Bool-cases (leb w.block_size (length b))) [
          | inl d ↦
              rw (e, d)
                (stream_blocks-AllShaped fuel start size (remaining - w.block_size)
                  (sizes ++ r.0 ∷ []) (drop w.block_size b) r.1 pos s
                  (All-snoc sizes r.0 ws (stored-IsWord (take w.block_size b))) few
                  (IsCounted-next w.block_size size remaining r.0 sizes pos (ground (arith, e)) c))
          | inr d ↦ rw (e, d) tt
        ]
        | inr e ↦ rw e (
            stream_tail-AllShaped start size remaining sizes b w w.block_size pos s ws few
              (ground (arith, e)) c)
      ]

  write_file_data-AllShaped :
      (b : Bytes) (size : ℕ) (w : Writer)
      → 0 < w.block_size
      → length w.fragments + 1 < 4294967295
      → AllShaped w.block_size size (write_file_data z b size w)
  unfolding write_file_data
  write_file_data-AllShaped b size w pos few =
      stream_blocks-AllShaped (suc size) (u32 w.data_pos) size size [] b w pos (omega arith) tt few
        (record { floor = omega arith; ceiling = omega arith })

  -- The numbers of a file that is written.
  pub write_file_data-IsShaped :
      (b : Bytes) (size : ℕ) (w v : Writer) (p : Placed)
      → 0 < w.block_size
      → length w.fragments + 1 < 4294967295
      → write_file_data z b size w ≡ streamed p v
      → IsShaped w.block_size size p
  unfolding AllShaped
  write_file_data-IsShaped b size w v p pos few e =
      rw e at (write_file_data-AllShaped b size w pos few)
