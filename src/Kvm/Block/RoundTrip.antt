-- ===== src/Kvm/Block/RoundTrip.antt =====
-- A guest reads from the disk of pkg/vm/kvm/virtio_blk.go what it wrote to it.
use sandal.Prelude.{
  ◌≡◌, refl, ap, sym, ◌∙◌, ℕ, ◌+◌, ◌*◌, ◌/◌, ◌<◌, false, List, [], ◌∷◌, ◌++◌, length, drop,
  replicate, arith, length-append, take-append_self, drop-append_self, append_assoc, append-nil,
  drop-drop,
}
use sandal.Prelude.Words.{Bytes, u8, u32, u64}
use sandal.Kvm.Block.{
  Disk, le32_of, from_le32, is_negative, read_at, splice, write_at, fill, read_loop, drain,
  write_loop, Served, set_status, split_last, perform, write_if, handle_request, with_header,
  type_and_sector,
}
use sandal.Kvm.Block.Splice.{drop-splice, splice-splice}

abbrev all_of : List Bytes → Bytes
all_of [] = []
all_of (d ∷ ds) = d ++ all_of ds

-- The lists have the same lengths, one by one.
abbrev IsLike : List Bytes → List Bytes → Type 0
IsLike [] [] = Unit
IsLike (b ∷ bs) (d ∷ ds) = (length b ≡ length d) × IsLike bs ds
IsLike _ _ = ⊥

positive : (offset n : ℕ) → offset + n < 9223372036854775808 → is_negative offset ≡ false
positive offset n h = ground arith

write_loop_lem :
    (c : Bytes) (offset : ℕ) (ds : List Bytes)
    → offset + length (all_of ds) < 9223372036854775808
    → write_loop c offset ds ≡ (splice c offset (all_of ds), 0)
unfolding write_loop write_at drain
write_loop_lem c offset [] h = unfold splice in refl
write_loop_lem c offset (d ∷ ds) h =
    let l : length (d ++ all_of ds) ≡ length d + length (all_of ds) = length-append d (all_of ds) in
    let e : u64 (offset + length d) ≡ offset + length d = omega arith in
    rw (positive offset (length (d ++ all_of ds)) h, e)
      (write_loop_lem (splice c offset d) (offset + length d) ds (omega arith)
        ∙ ap (λ x. (x, 0)) (splice-splice c offset d (all_of ds)))

drop_same : (b d : Bytes) → length b ≡ length d → drop (length d) b ≡ []
drop_same [] [] e = refl
drop_same [] (y ∷ d) e = absurd (omega arith)
drop_same (x ∷ b) [] e = absurd (omega arith)
drop_same (x ∷ b) (y ∷ d) e = drop_same b d (omega arith)

read_at_lem :
    (c : Bytes) (size offset : ℕ) (d rest : Bytes)
    → offset + length d < 9223372036854775808
    → size ≡ length d
    → drop offset c ≡ d ++ rest
    → read_at c size offset ≡ (d, false)
unfolding read_at
read_at_lem c size offset d rest h l e =
    rw (positive offset (length d) h, e, l, take-append_self d rest) (ground arith)

read_loop_lem :
    (c : Bytes) (offset : ℕ) (bufs ds : List Bytes) (rest : Bytes)
    → IsLike bufs ds
    → drop offset c ≡ all_of ds ++ rest
    → offset + length (all_of ds) < 9223372036854775808
    → read_loop c offset bufs ≡ record { bufs = ds; count = u32 (length (all_of ds)); status = 0 }
unfolding read_loop fill
read_loop_lem c offset [] [] rest s e h = refl
read_loop_lem c offset [] (d ∷ ds) rest s e h = absurd s
read_loop_lem c offset (b ∷ bs) [] rest s e h = absurd s
read_loop_lem c offset (b ∷ bs) (d ∷ ds) rest (same, s) e h =
    let l : length (d ++ all_of ds) ≡ length d + length (all_of ds) = length-append d (all_of ds) in
    let split : drop offset c ≡ d ++ (all_of ds ++ rest) = e ∙ append_assoc d (all_of ds) rest in
    let next : drop (offset + length d) c ≡ all_of ds ++ rest =
      sym (drop-drop (offset + length d) offset (length d) c refl)
      ∙ ap (drop (length d)) split
      ∙ drop-append_self d (all_of ds ++ rest) in
    let w : u64 (offset + length d) ≡ offset + length d = omega arith in
    let n : u32 (length d + u32 (length (all_of ds))) ≡ u32 (length (d ++ all_of ds)) =
      omega arith in
    rw
      (
        read_at_lem c (length b) offset d (all_of ds ++ rest) (omega arith) same split,
        w,
        read_loop_lem c (offset + length d) bs ds rest s next (omega arith),
        drop_same b d same,
        append-nil d,
        n,
      )
      refl

-- The first buffer of a request of a type for a sector.
abbrev pub request : ℕ → ℕ → Bytes
request type sector =
    le32_of type ++ (replicate 4 0 ++ (le32_of sector ++ le32_of (sector / 4294967296)))

split_last-append :
    (b last : Bytes) (bs : List Bytes) → split_last b (bs ++ last ∷ []) ≡ (b ∷ bs, last)
split_last-append b last [] = refl
split_last-append b last (c ∷ bs) = rw (split_last-append c last bs) refl

from_le32-le32_of :
    (v : ℕ)
    → v < 4294967296
    → from_le32 (u8 v) (u8 (v / 256)) (u8 (v / 65536)) (u8 (v / 16777216)) ≡ v
from_le32-le32_of v h = omega arith

sector_lem :
    (s : ℕ)
    → s < 18446744073709551616
    → from_le32 (u8 s) (u8 (s / 256)) (u8 (s / 65536)) (u8 (s / 16777216))
        + from_le32
            (u8 (s / 4294967296))
            (u8 (s / 4294967296 / 256))
            (u8 (s / 4294967296 / 65536))
            (u8 (s / 4294967296 / 16777216))
          * 4294967296
      ≡ s
sector_lem s h =
    let low : from_le32 (u8 s) (u8 (s / 256)) (u8 (s / 65536)) (u8 (s / 16777216)) ≡ u32 s =
      omega arith in
    let high : from_le32 (u8 (s / 4294967296)) (u8 (s / 4294967296 / 256))
          (u8 (s / 4294967296 / 65536)) (u8 (s / 4294967296 / 16777216))
        ≡ s / 4294967296 =
      from_le32-le32_of (s / 4294967296) (omega arith) in
    rw (low, high) (omega arith)

-- A request with its buffers in the usual order: the cases of its type at the sector's offset.
request_lem :
    (d : Disk) (type sector : ℕ) (out bufs : List Bytes) (last : Bytes)
    → type < 256
    → sector * 512 < 9223372036854775808
    → handle_request d (request type sector ∷ out) (bufs ++ last ∷ [])
      ≡ perform d type (sector * 512) out bufs last
unfolding handle_request with_header type_and_sector
request_lem d type sector out [] last t h =
    let w : u64 (sector * 512) ≡ sector * 512 = omega arith in
    rw (from_le32-le32_of type (omega arith), sector_lem sector (omega arith), w) refl
request_lem d type sector out (b ∷ bufs) last t h =
    let w : u64 (sector * 512) ≡ sector * 512 = omega arith in
    rw
      (
        split_last-append b last bufs,
        from_le32-le32_of type (omega arith),
        sector_lem sector (omega arith),
        w,
      )
      refl

write_request :
    (d : Disk) (sector : ℕ) (ds : List Bytes) (s : ℕ)
    → d.read_only ≡ false
    → sector * 512 + length (all_of ds) < 9223372036854775808
    → handle_request d (request 1 sector ∷ ds) ((s ∷ []) ∷ []) ≡ record {
      written = 1;
      buffers = (0 ∷ []) ∷ [];
      disk = record d { contents = splice d.contents (sector * 512) (all_of ds) };
    }
write_request d sector ds s writable h =
    request_lem d 1 sector ds [] (s ∷ []) (omega arith) (omega arith)
    ∙ (unfold perform set_status write_if in
        rw (writable, write_loop_lem d.contents (sector * 512) ds h) refl)

read_request :
    (d : Disk) (sector : ℕ) (ds bufs : List Bytes) (rest : Bytes) (s : ℕ)
    → drop (sector * 512) d.contents ≡ all_of ds ++ rest
    → IsLike bufs ds
    → sector * 512 + length (all_of ds) < 9223372036854775808
    → length (all_of ds) < 4294967295
    → handle_request d (request 0 sector ∷ []) (bufs ++ (s ∷ []) ∷ [])
      ≡ record { written = length (all_of ds) + 1; buffers = ds ++ (0 ∷ []) ∷ []; disk = d }
read_request d sector ds bufs rest s e like h small =
    let n : u32 (u32 (length (all_of ds)) + 1) ≡ length (all_of ds) + 1 = omega arith in
    request_lem d 0 sector [] bufs (s ∷ []) (omega arith) (omega arith)
    ∙ (unfold perform set_status in
        rw (read_loop_lem d.contents (sector * 512) bufs ds rest like e h, n) refl)

-- Bytes that a request wrote to a disk that is not read-only, in or behind its file, are what the
-- next request reads from that sector into buffers of the same lengths: both report success, and
-- the read reports one byte more than it read, if the end is below 2^63 and the length below
-- 2^32 - 1.
pub read-write :
    (d : Disk) (sector : ℕ) (ds bufs : List Bytes) (s t : ℕ)
    → d.read_only ≡ false
    → IsLike bufs ds
    → sector * 512 + length (all_of ds) < 9223372036854775808
    → length (all_of ds) < 4294967295
    → (w : Served) × (handle_request d (request 1 sector ∷ ds) ((s ∷ []) ∷ []) ≡ w)
      × (w.buffers ≡ (0 ∷ []) ∷ [])
      × (handle_request w.disk (request 0 sector ∷ []) (bufs ++ (t ∷ []) ∷ []) ≡ record {
        written = length (all_of ds) + 1;
        buffers = ds ++ (0 ∷ []) ∷ [];
        disk = w.disk;
      })
read-write d sector ds bufs s t writable like h small =
    let disk : Disk = record d { contents = splice d.contents (sector * 512) (all_of ds) } in
    (
      record { written = 1; buffers = (0 ∷ []) ∷ []; disk = disk },
      write_request d sector ds s writable h,
      refl,
      read_request disk sector ds bufs _ t (drop-splice d.contents (sector * 512) (all_of ds)) like
          h small,
    )
