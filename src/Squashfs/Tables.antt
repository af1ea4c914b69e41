-- ===== src/Squashfs/Tables.antt =====
-- A reference into a metadata table of pkg/lib/squashfs/writer.go leads a reader to the bytes that
-- it stands for.
use mathlib.Core.Option
use sandal.Prelude.{
  ℕ, zero, suc, ◌+◌, ◌-◌, ◌*◌, ◌/◌, ◌%◌, ◌<◌, ◌≤◌, ◌≡◌, refl, ap, ◌∙◌, inl, inr, Bool, true, false,
  Option, some, List, [], ◌∷◌, ◌++◌, map, length, take, drop, get_elem?, ltb, ◌==◌, if◌then◌else◌,
  Bool-cases, arith, take-append_self, drop-append_self, drop-append_past, length-append,
  length-take, length-drop, drop-drop,
}
use sandal.Prelude.Words.{Bytes, u8, u16, le16}
use sandal.Squashfs.Writer.{Zlib, IsZlib}
use sandal.Squashfs.Reading.{joined}
use sandal.Squashfs.Metadata.{
  with_metadata_bit, meta_stored, meta_blocks, compress_metadata_blocks, read_meta, table_bytes,
  inode_ref,
}

take-append-drop {ℓ} : {A : Type ℓ} (n : ℕ) (s : List A) → take n s ++ drop n s ≡ s
take-append-drop zero s = refl
take-append-drop (suc n) [] = refl
take-append-drop (suc n) (x ∷ s) = ap (◌∷◌ x) (take-append-drop n s)

module _ (z : Zlib) where
  -- A header and its bytes are read as the chunk, whatever follows.
  abbrev IsChunk : ℕ → Bytes → Bytes → Type 0
  IsChunk h x c =
      (h < 65536)
      × (h % 32768 ≡ length x)
      × ((if h / 32768 % 2 == 1 then some x else z.decompress x) ≡ some c)

  raw-IsChunk : (c : Bytes) → length c ≤ 8192 → IsChunk (with_metadata_bit (u16 (length c))) c c
  raw-IsChunk c h =
      let u : length c % 65536 ≡ length c = omega arith in
      let t : (length c / 32768 % 2 == 0) ≡ true = ground arith in
      let v : ((length c + 32768) / 32768 % 2 == 1) ≡ true = ground arith in
      rw (u, t, v) (omega arith, omega arith, refl)

  meta_stored-IsChunk :
      IsZlib z
      → (fixed : Bool) (c : Bytes) → length c ≤ 8192
      → IsChunk (meta_stored z fixed c).0 (meta_stored z fixed c).1 c
  unfolding meta_stored
  meta_stored-IsChunk law true c h = raw-IsChunk c h
  meta_stored-IsChunk law false c h = elim (Bool-cases (ltb (length (z.compress c)) (length c))) [
    | inr e ↦ rw e (raw-IsChunk c h)
    | inl e ↦
        (let l : length (z.compress c) < length c = ground arith in
          let u : length (z.compress c) % 65536 ≡ length (z.compress c) = omega arith in
          let v : (length (z.compress c) / 32768 % 2 == 1) ≡ false = ground arith in
          rw (e, u, v) (omega arith, omega arith, law.decompress-compress c))
  ]

  read_meta-chunk :
      (fuel h : ℕ) (x c r : Bytes)
      → IsChunk h x c
      → read_meta z (suc fuel) (le16 h ++ (x ++ r)) ≡ joined (some c) (read_meta z fuel r)
  unfolding read_meta
  read_meta-chunk fuel h x c r (l, n, d) =
      let w : u8 h + u8 (h / 256) * 256 ≡ h = omega arith in
      rw (w, n, take-append_self x r, drop-append_self x r, d) refl

  -- The table is read as what it was made of.
  read_meta-blocks :
      IsZlib z
      → (k n : ℕ) (fixed : Bool) (pos : ℕ) (raw : Bytes) → length raw ≤ k
      → length raw ≤ n
      → read_meta z n (table_bytes (meta_blocks z k fixed pos raw)) ≡ some raw
  unfolding meta_blocks table_bytes
  read_meta-blocks law zero n fixed pos [] h l = unfold read_meta in refl
  read_meta-blocks law zero n fixed pos (x ∷ raw) h l = absurd (omega arith)
  read_meta-blocks law (suc k) n fixed pos [] h l = unfold read_meta in refl
  read_meta-blocks law (suc k) zero fixed pos (x ∷ raw) h l = absurd (omega arith)
  read_meta-blocks law (suc k) (suc n) fixed pos (x ∷ raw) h l =
      let c : Bytes = take 8192 (x ∷ raw) in
      let rest : Bytes = drop 8192 (x ∷ raw) in
      let m = meta_stored z fixed c in
      let later : length rest ≤ k = omega (arith, length-drop 8192 (x ∷ raw)) in
      let later_n : length rest ≤ n = omega (arith, length-drop 8192 (x ∷ raw)) in
      read_meta-chunk n m.0 m.1 c _
        (meta_stored-IsChunk law fixed c (omega (arith, length-take 8192 (x ∷ raw))))
      ∙ (ap (joined (some c))
            (read_meta-blocks law k n fixed (pos + (2 + length m.1)) rest later later_n)
          ∙ ap some (take-append-drop 8192 (x ∷ raw)))

  -- The offset of a block leads to it.
  find_block :
      (k : ℕ) (fixed : Bool) (pos : ℕ) (raw : Bytes) (i : ℕ)
      → length raw ≤ k
      → i * 8192 < length raw
      → (o : ℕ) × (get_elem? (map (λ m. m.offset) (meta_blocks z k fixed pos raw)) i ≡ some o)
        × (pos ≤ o)
        × (o ≤ pos + length (table_bytes (meta_blocks z k fixed pos raw)))
        × (drop (o - pos) (table_bytes (meta_blocks z k fixed pos raw))
            ≡ table_bytes (meta_blocks z (k - i) fixed o (drop (i * 8192) raw)))
  unfolding meta_blocks table_bytes
  find_block zero fixed pos raw i h l = absurd (omega arith)
  find_block (suc k) fixed pos [] i h l = absurd (omega arith)
  find_block (suc k) fixed pos (x ∷ raw) zero h l =
      let same : pos - pos ≡ 0 = omega arith in
      let all : suc k - 0 ≡ suc k = omega arith in
      (pos, refl, omega arith, omega arith, rw (same, all) refl)
  find_block (suc k) fixed pos (x ∷ raw) (suc i) h l =
      let c : Bytes = take 8192 (x ∷ raw) in
      let rest : Bytes = drop 8192 (x ∷ raw) in
      let m = meta_stored z fixed c in
      let next : ℕ = pos + (2 + length m.1) in
      let (o, found, above, below, same) =
        find_block k fixed next rest i (omega (arith, length-drop 8192 (x ∷ raw)))
          (omega (arith, length-drop 8192 (x ∷ raw))) in
      (
        o,
        found,
        omega arith,
        omega (arith, below, length-append m.1 (table_bytes (meta_blocks z k fixed next rest))),
        drop-append_past (o - pos) (o - pos - 2) (le16 m.0)
              (m.1 ++ table_bytes (meta_blocks z k fixed next rest)) (omega arith)
            ∙ (drop-append_past (o - pos - 2) (o - next) m.1
                  (table_bytes (meta_blocks z k fixed next rest)) (omega arith)
                ∙ (same
                    ∙ (ap (λ t. table_bytes (meta_blocks z (k - i) fixed o t))
                          (drop-drop (suc i * 8192) 8192 (i * 8192) (x ∷ raw) (omega arith))
                        ∙ ap
                            (λ t.
                              table_bytes (meta_blocks z t fixed o (drop (suc i * 8192) (x ∷ raw))))
                            (omega arith)))),
      )

  -- What a reader finds behind a reference into a table.
  unfoldable pub follow : ℕ → ℕ → Bytes → Option Bytes
  unfolding read_meta
  follow n ref table = Option.map (drop (ref % 65536)) (read_meta z n (drop (ref / 65536) table))

  -- A position in the metadata has a reference, and a reader that follows it into the table finds
  -- the metadata from that position on, whether the blocks are compressed or not. The table has
  -- fewer than 2^48 bytes.
  pub inode_ref-follow :
      IsZlib z
      → (raw : Bytes) (fixed : Bool) (pos : ℕ) → pos < length raw
      → length (table_bytes (compress_metadata_blocks z raw fixed)) < 281474976710656
      → (ref : ℕ) × (inode_ref pos (map (λ m. m.offset) (compress_metadata_blocks z raw fixed))
          ≡ some ref)
        × (follow (length raw) ref (table_bytes (compress_metadata_blocks z raw fixed))
            ≡ some (drop pos raw))
  unfolding inode_ref compress_metadata_blocks follow
  inode_ref-follow law raw fixed pos h l =
      let i : ℕ = pos / 8192 in
      let n : ℕ = length raw in
      let (o, found, above, below, same) = find_block n fixed 0 raw i (omega arith) (omega arith) in
      let ref : ℕ = o * 65536 + pos % 8192 in
      let u : ref % 18446744073709551616 ≡ ref = omega arith in
      let block : ref / 65536 ≡ o - 0 = omega arith in
      let inner : ref % 65536 ≡ pos % 8192 = omega arith in
      let part : Bytes = drop (i * 8192) raw in
      (
        ref,
        rw (found, u) refl,
        ap (Option.map (drop (ref % 65536))) (
              ap (λ t. read_meta z n (drop t (table_bytes (meta_blocks z n fixed 0 raw)))) block
              ∙ (ap (read_meta z n) same
                  ∙ read_meta-blocks law (n - i) n fixed o part
                      (omega (arith, length-drop (i * 8192) raw))
                      (omega (arith, length-drop (i * 8192) raw))))
            ∙ ap some (
                ap (λ t. drop t part) inner
                ∙ drop-drop pos (i * 8192) (pos % 8192) raw (omega arith)),
      )
