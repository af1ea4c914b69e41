-- ===== src/Squashfs/Image.antt =====
-- The data of all files of an image: build of pkg/lib/squashfs/writer.go writes the files one after
-- the other, and flushes the last fragment.
use sandal.Prelude.{ℕ, ◌+◌, ◌<◌, ◌≡◌, refl, Option, none, some, List, [], ◌∷◌, length, arith}
use sandal.Prelude.Words.{Bytes}
use sandal.Squashfs.Writer.{
  Zlib, IsZlib, Writer, Placed, Streamed, streamed, unexpected_eof, no_fuel, new_writer,
  flush_frag_block, write_file_data,
}
use sandal.Squashfs.Reading.{read_file_data}
use sandal.Squashfs.Extending.{IsWriter, Extends, extent, Extends-trans, flush_frag_block-Extends}
use sandal.Squashfs.Held.{IsHeld-read, IsHeld-Extends}
use sandal.Squashfs.Files.{write_file_data-IsWritten}

abbrev pub total : List Bytes → ℕ
total [] = 0
total (c ∷ cs) = length c + total cs

new_extent : (n t : ℕ) → t < 4294967200 → extent (new_writer n) + t < 4294967296
unfolding new_writer
new_extent n t h = omega arith

new_few : (n k : ℕ) → k < 4294967295 → length (new_writer n).fragments + k < 4294967295
unfolding new_writer
new_few n k h = omega arith

module _ (z : Zlib) where
  abbrev with_file : Placed → Option (List Placed × Writer) → Option (List Placed × Writer)
  with_file p none = none
  with_file p (some (ps, w)) = some (p ∷ ps, w)

  abbrev next_files :
      Streamed → (Writer → Option (List Placed × Writer)) → Option (List Placed × Writer)
  next_files (streamed p w) k = with_file p (k w)
  next_files unexpected_eof k = none
  next_files no_fuel k = none

  -- Where each file is, and the writer with all data on the disk.
  unfoldable pub write_all : List Bytes → Writer → Option (List Placed × Writer)
  unfolding flush_frag_block write_file_data
  write_all [] w = some ([], flush_frag_block z w)
  write_all (c ∷ cs) w = next_files (write_file_data z c (length c) w) (λ v. write_all cs v)

  -- Each file is read back.
  abbrev pub AllRead : List Bytes → List Placed → Writer → Type 0
  AllRead [] [] w = Unit {0}
  AllRead [] (p ∷ ps) w = ⊥
  AllRead (c ∷ cs) [] w = ⊥
  AllRead (c ∷ cs) (p ∷ ps) w = (read_file_data z p (length c) w ≡ some c) × AllRead cs ps w

  -- The files of the image in the last state.
  record Wrote (cs : List Bytes) (w : Writer) : Type 0 where
    places : List Placed
    last : Writer
    answer : write_all cs w ≡ some (places, last)
    extends : Extends z w last
    reads : AllRead cs places last

  write_all-Wrote :
      IsZlib z
      → (cs : List Bytes) (w : Writer) → IsWriter z w
      → extent w + total cs < 4294967296
      → length w.fragments + length cs < 4294967295
      → Wrote cs w
  unfolding write_all
  write_all-Wrote law [] w i low few = record {
    places = [];
    last = flush_frag_block z w;
    answer = refl;
    extends = flush_frag_block-Extends z law w i;
    reads = tt;
  }
  write_all-Wrote law (c ∷ cs) w i low few =
      let r = write_file_data-IsWritten z law c w i (omega arith) (omega arith) in
      let v : Writer = r.written in
      let q : Wrote cs v =
        write_all-Wrote law cs v r.still (omega (arith, r.further)) (omega (arith, r.few)) in
      record {
        places = r.placed ∷ q.places;
        last = q.last;
        answer = rw (r.answer, q.answer) refl;
        extends = Extends-trans z w v q.last r.extends q.extends;
        reads = (
          IsHeld-read z r.placed (length c) c q.last
              (IsHeld-Extends z r.placed (length c) c v q.last q.extends r.held),
          q.reads,
        );
      }

  pub new_writer-IsWriter : (n : ℕ) → 0 < n → n < 16777216 → IsWriter z (new_writer n)
  unfolding new_writer
  new_writer-IsWriter n h k = record {
    position = refl;
    some_size = h;
    small_size = k;
    buffered = omega arith;
    inside = tt;
  }

  -- Any files, written one after the other by a new writer and then flushed, are all read back in
  -- the last image: each from its own start block, size words and piece of a fragment. The block
  -- size is from 1 to 2^24 - 1, the files have fewer than 2^32 - 96 bytes together, there are fewer
  -- than 2^32 - 1 of them, and each has the size that Lstat gave.
  pub write_all-new_writer :
      IsZlib z
      → (n : ℕ) (cs : List Bytes) → 0 < n
      → n < 16777216
      → total cs < 4294967200
      → length cs < 4294967295
      → (ps : List Placed) × (v : Writer) × (write_all cs (new_writer n) ≡ some (ps, v))
        × AllRead cs ps v
  write_all-new_writer law n cs h k low few =
      let q : Wrote cs (new_writer n) =
        write_all-Wrote law cs (new_writer n) (new_writer-IsWriter n h k)
          (new_extent n (total cs) low) (new_few n (length cs) few) in
      (q.places, q.last, q.answer, q.reads)
