-- ===== src/Squashfs/Files.antt =====
-- writeFileDataStreamed of pkg/lib/squashfs/writer.go: a file that is written is read back.

use native.Mathlib.Nat.{mod-eq-sub-mod, mod-eq_of_lt}
use sandal.Prelude.{
  ℕ, zero, suc, ◌+◌, ◌-◌, ◌%◌, ◌<◌, ◌≤◌, ◌≡◌, refl, ap, sym, ◌∙◌, inl, inr, true, some, List, [],
  ◌∷◌, ◌++◌, append_assoc, append-nil, length, take, drop, leb, ◌==◌, Bool-cases, arith,
  length-take, length-drop,
}
use sandal.Prelude.Words.{Bytes}
use sandal.Squashfs.Writer.{
  Zlib, IsZlib, Writer, Placed, Streamed, streamed, header_size, stored, write_data_block,
  add_fragment, stream_tail, stream_blocks, write_file_data,
}
use sandal.Squashfs.Reading.{cut_out, fragment_bytes}
use sandal.Squashfs.Blocks.{stored-IsBlock, stored-le}
use sandal.Squashfs.Extending.{
  IsWriter, Extends, SameInodes, extent, Extends-refl, Extends-trans, write_data_block-IsWriter,
  write_data_block-Extends,
}
use sandal.Squashfs.Fragments.{IsPlaced, add_fragment-IsPlaced}
use sandal.Squashfs.Held.{IsLaid, IsLaid-snoc, IsHeld}

nil_of_length {ℓ} : {A : Type ℓ} (s : List A) → length s ≡ 0 → s ≡ []
nil_of_length [] e = refl
nil_of_length (x ∷ s) e = absurd (omega arith)

take-append-drop {ℓ} : {A : Type ℓ} (n : ℕ) (s : List A) → take n s ++ drop n s ≡ s
take-append-drop zero s = refl
take-append-drop (suc n) [] = refl
take-append-drop (suc n) (x ∷ s) = ap (◌∷◌ x) (take-append-drop n s)

take-length {ℓ} : {A : Type ℓ} (s : List A) → take (length s) s ≡ s
take-length [] = refl
take-length (x ∷ s) = ap (◌∷◌ x) (take-length s)

module _ (z : Zlib) where
  -- What writing a file's data has done.
  pub record IsWritten (size : ℕ) (b content : Bytes) (w : Writer) (r : Streamed) : Type 0 where
    pub placed : Placed
    pub written : Writer
    pub answer : r ≡ streamed placed written
    pub still : IsWriter z written
    pub extends : Extends z w written
    pub few : length written.fragments ≤ length w.fragments + 1
    pub inodes : SameInodes w written
    pub further : extent written ≤ extent w + length b
    pub held : IsHeld z placed size content written

  -- The variables of the loop: what is laid so far begins at the start block.
  record IsStreaming (start size remaining : ℕ) (sizes : List ℕ) (body b : Bytes) (w : Writer)
      : Type 0 where
    still : IsWriter z w
    left : length b ≡ remaining
    before : Bytes
    laid : Bytes
    image : w.out ≡ before ++ laid
    first : length before ≡ start - header_size
    blocks : IsLaid z sizes laid body
    over : size % w.block_size ≡ remaining % w.block_size
    few : length w.fragments < 4294967294

  stream_tail-IsWritten :
      IsZlib z
      → (start size remaining : ℕ) (sizes : List ℕ) (body b : Bytes) (w : Writer)
      → IsStreaming start size remaining sizes body b w
      → remaining < w.block_size
      → IsWritten size b (body ++ b) w (stream_tail z start remaining sizes b w)
  unfolding stream_tail
  stream_tail-IsWritten law start size remaining sizes body b w i h =
      elim (Bool-cases (remaining == 0)) [
        | inl e ↦
            (let none_left : b ≡ [] = nil_of_length b (ground (arith, i.left)) in
              record {
                placed = record {
                  start_block = start;
                  block_sizes = sizes;
                  frag_idx = 4294967295;
                  frag_off = 0;
                };
                written = w;
                answer = rw e refl;
                still = i.still;
                extends = Extends-refl z w;
                few = omega arith;
                inodes = (refl, refl, refl);
                further = omega arith;
                held = record {
                  before = i.before;
                  behind = [];
                  laid = i.laid;
                  body = body;
                  piece = [];
                  image = i.image ∙ ap (λ o. i.before ++ o) (sym (append-nil i.laid));
                  first = i.first;
                  blocks = i.blocks;
                  whole = ap (λ o. body ++ o) none_left;
                  rest = inl (refl, refl);
                };
              })
        | inr e ↦
            (let r : ℕ × ℕ × Writer = add_fragment z (take remaining b) w in
              let all : take remaining b ≡ b = rw (← i.left) (take-length b) in
              let q : IsPlaced z (take remaining b) w r =
                add_fragment-IsPlaced z law (take remaining b) w i.still
                  (omega (arith, length-take remaining b)) i.few in
              let k : leb remaining (length b) ≡ true = ground (arith, i.left) in
              let n : size % r.2.block_size ≡ length (take remaining b) =
                ap (λ m. size % m) q.extends.same_size
                ∙ (i.over ∙ (mod-eq_of_lt h ∙ omega (arith, length-take remaining b, i.left))) in
              record {
                placed = record {
                  start_block = start;
                  block_sizes = sizes;
                  frag_idx = r.0;
                  frag_off = r.1;
                };
                written = r.2;
                answer = rw (e, k) refl;
                still = q.still;
                extends = q.extends;
                few = q.few;
                inodes = q.inodes;
                further = omega (arith, q.further, length-take remaining b, i.left);
                held = record {
                  before = i.before;
                  behind = q.extends.more;
                  laid = i.laid;
                  body = body;
                  piece = b;
                  image =
                      q.extends.longer
                      ∙ (ap (λ o. o ++ q.extends.more) i.image
                          ∙ append_assoc i.before i.laid q.extends.more);
                  first = i.first;
                  blocks = i.blocks;
                  whole = refl;
                  rest = inr (
                    q.number,
                    ap (λ m. cut_out r.1 m (fragment_bytes z r.0 r.2)) n ∙ (q.found ∙ ap some all),
                  );
                };
              })
      ]

  IsWritten-after :
      (size : ℕ) (a b c d : Bytes) (w v : Writer) (r : Streamed)
      → c ≡ d
      → Extends z w v
      → v.fragments ≡ w.fragments
      → SameInodes w v
      → extent v + length a ≤ extent w + length b
      → IsWritten size a c v r
      → IsWritten size b d w r
  IsWritten-after size a b c d w v r same g f k l h = record {
    placed = h.placed;
    written = h.written;
    answer = h.answer;
    still = h.still;
    extends = Extends-trans z w v h.written g h.extends;
    few = omega (arith, h.few, ap length f);
    inodes = (h.inodes.0 ∙ k.0, h.inodes.1 ∙ k.1, h.inodes.2 ∙ k.2);
    further = omega (arith, h.further);
    held = rw (← same) h.held;
  }

  round_extent :
      (b : Bytes) (w : Writer)
      → extent (write_data_block z (take w.block_size b) w).1 + length (drop w.block_size b)
        ≤ extent w + length b
  unfolding write_data_block
  round_extent b w = omega (
    arith,
    stored-le z (take w.block_size b),
    length-take w.block_size b,
    length-drop w.block_size b,
  )

  -- A round of the loop: a block of the file is laid behind the others.
  next_round :
      IsZlib z
      → (start size remaining : ℕ) (sizes : List ℕ) (body b : Bytes) (w : Writer)
      → IsStreaming start size remaining sizes body b w
      → w.block_size ≤ remaining
      → IsStreaming start size
          (remaining - w.block_size)
          (sizes ++ (write_data_block z (take w.block_size b) w).0 ∷ [])
          (body ++ take w.block_size b)
          (drop w.block_size b)
          (write_data_block z (take w.block_size b) w).1
  unfolding write_data_block
  next_round law start size remaining sizes body b w i l =
      let x : Bytes = take w.block_size b in
      let n : length x < 16777216 = omega (arith, length-take w.block_size b, i.still.small_size) in
      record {
        still = write_data_block-IsWriter z x w i.still;
        left = omega (arith, length-drop w.block_size b, i.left);
        before = i.before;
        laid = i.laid ++ (stored z x).0;
        image = ap (λ o. o ++ (stored z x).0) i.image ∙ append_assoc i.before i.laid (stored z x).0;
        first = i.first;
        blocks =
            IsLaid-snoc z sizes (stored z x).1 i.laid body (stored z x).0 x i.blocks
              (stored-IsBlock z law x n);
        over = i.over ∙ mod-eq-sub-mod l;
        few = i.few;
      }

  stream_blocks-IsWritten :
      IsZlib z
      → (fuel start size remaining : ℕ) (sizes : List ℕ) (body b : Bytes) (w : Writer)
      → IsStreaming start size remaining sizes body b w
      → remaining < fuel
      → IsWritten size b (body ++ b) w (stream_blocks z fuel start remaining sizes b w)
  unfolding stream_blocks write_data_block
  stream_blocks-IsWritten law zero start size remaining sizes body b w i f = absurd (omega arith)
  stream_blocks-IsWritten law (suc fuel) start size remaining sizes body b w i f =
      elim (Bool-cases (leb w.block_size remaining)) [
        | inr e ↦
            rw e (stream_tail-IsWritten law start size remaining sizes body b w i (ground arith))
        | inl e ↦
            (let x : Bytes = take w.block_size b in
              let v : Writer = (write_data_block z x w).1 in
              let l : w.block_size ≤ remaining = ground arith in
              let k : leb w.block_size (length b) ≡ true = ground (arith, i.left) in
              let n : length x < 16777216 =
                omega (arith, length-take w.block_size b, i.still.small_size) in
              let rest =
                stream_blocks-IsWritten law fuel start size (remaining - w.block_size)
                  (sizes ++ (write_data_block z x w).0 ∷ []) (body ++ x) (drop w.block_size b) v
                  (next_round law start size remaining sizes body b w i l)
                  (omega (arith, i.still.some_size)) in
              rw (e, k)
                (IsWritten-after size (drop w.block_size b) b ((body ++ x) ++ drop w.block_size b)
                  (body ++ b) w v _
                  (append_assoc body x (drop w.block_size b)
                    ∙ ap (λ o. body ++ o) (take-append-drop w.block_size b))
                  (write_data_block-Extends z x w i.still) refl (refl, refl, refl)
                  (round_extent b w) rest))
      ]

  -- writeFileDataStreamed of a file of the size that Lstat gave succeeds, keeps the writer in order
  -- and what was written before readable, and the file's data is in the image. The position is below
  -- 2^32, and there are fewer than 2^32 - 2 fragments.
  pub write_file_data-IsWritten :
      IsZlib z
      → (content : Bytes) (w : Writer) → IsWriter z w
      → w.data_pos < 4294967296
      → length w.fragments < 4294967294
      → IsWritten (length content) content content w (write_file_data z content (length content) w)
  unfolding write_file_data
  write_file_data-IsWritten law content w i low few =
      let u : w.data_pos % 4294967296 ≡ w.data_pos = omega arith in
      stream_blocks-IsWritten law (suc (length content)) (w.data_pos % 4294967296) (length content)
        (length content) [] [] content w
        (record {
          still = i;
          left = refl;
          before = w.out;
          laid = [];
          image = sym (append-nil w.out);
          first = omega (arith, i.position);
          blocks = (refl, refl);
          over = refl;
          few = few;
        })
        (omega arith)
