-- ===== src/Kvm/Block.antt =====
-- The virtio block device: pkg/vm/kvm/virtio_blk.go. The buffers of a request are their contents,
-- and none of them overlaps another; the disk's file is its bytes and what its Sync returns. An
-- int64 that is negative is a number of 2^63 or more.
pub mod Splice
pub mod RoundTrip
pub mod Bounds
use Prim.Native.Nat.{bit_or}
use sandal.Prelude.{
  ℕ, zero, suc, ◌+◌, ◌-◌, ◌*◌, ◌/◌, Bool, true, false, ◌&&◌, ◌||◌, List, [], ◌∷◌, ◌++◌, Option,
  none, some, length, take, drop, replicate, ltb, leb, ◌==◌, if◌then◌else◌, get_or,
}
use sandal.Prelude.Words.{Bytes, u8, u32, u64}
use sandal.Kvm.Virtqueue.{Outcome, ok, panics}

-- VirtioBlkDevice with the file behind it; `size` is that of the file when it was opened.
pub record Disk : Type 0 where
  pub contents : Bytes
  pub read_only : Bool
  pub size : ℕ
  pub sync_fails : Bool

-- Features: FLUSH, BLK_SIZE, SEG_MAX and SIZE_MAX, and RO.
unfoldable pub features : Disk → ℕ
features d = let f = bit_or (bit_or (bit_or 512 64) 4) 2 in if d.read_only then bit_or f 32 else f

abbrev pub le32_of : ℕ → Bytes
le32_of v = u8 v ∷ u8 (v / 256) ∷ u8 (v / 65536) ∷ u8 (v / 16777216) ∷ []

abbrev from_le16 : ℕ → ℕ → ℕ
from_le16 a b = a + b * 256

abbrev pub from_le32 : ℕ → ℕ → ℕ → ℕ → ℕ
from_le32 a b c d = a + b * 256 + c * 65536 + d * 16777216

abbrev pub config : Disk → Bytes
config d =
    le32_of (d.size / 512)
    ++ (le32_of (d.size / 512 / 4294967296)
        ++ (le32_of 1048576 ++ (le32_of 128 ++ (replicate 4 0 ++ (le32_of 512 ++ replicate 8 0)))))

-- The read of `size` bytes; a read that begins in the config and does not end there panics.
abbrev config_value : ℕ → Bytes → Outcome ℕ
config_value size (a ∷ b ∷ c ∷ d ∷ _) =
    if size == 1
    then ok a
    else if size == 2
    then ok (from_le16 a b)
    else if size == 4
    then ok (from_le32 a b c d)
    else ok 0
config_value size (a ∷ b ∷ _) =
    if size == 1
    then ok a
    else if size == 2
    then ok (from_le16 a b)
    else if size == 4
    then panics
    else ok 0
config_value size (a ∷ []) =
    if size == 1 then ok a else if size == 2 || size == 4 then panics else ok 0
config_value size [] = if size == 1 || size == 2 || size == 4 then panics else ok 0

-- ConfigRead; offset + size is a sum of uint32.
unfoldable pub config_read : Disk → ℕ → ℕ → Outcome ℕ
config_read d offset size =
    if ltb 32 (u32 (offset + size)) then ok 0 else config_value size (drop offset (config d))

abbrev pub is_negative : ℕ → Bool
is_negative offset = leb 9223372036854775808 offset

-- File.ReadAt: the bytes read, and whether there is an error.
unfoldable pub read_at : Bytes → ℕ → ℕ → Bytes × Bool
read_at contents size offset =
    if is_negative offset
    then ([], true)
    else (take size (drop offset contents), ltb (length (take size (drop offset contents))) size)

-- What WriteAt leaves of a file: zeros fill a gap behind its end.
unfoldable pub splice : Bytes → ℕ → Bytes → Bytes
splice contents offset [] = contents
splice contents offset (b ∷ bs) =
    take offset (contents ++ replicate offset 0)
    ++ ((b ∷ bs) ++ drop (offset + length (b ∷ bs)) contents)

-- File.WriteAt, whose one error here is that of a negative offset.
unfoldable pub write_at : Bytes → ℕ → Bytes → Option Bytes
write_at contents offset b = if is_negative offset then none else some (splice contents offset b)

-- The buffers, the number of bytes read and the status.
pub record Filled : Type 0 where
  pub bufs : List Bytes
  pub count : ℕ
  pub status : ℕ

abbrev and_then : Bytes → ℕ → Filled → Filled
and_then buf n f = record f { bufs = buf ∷ f.bufs; count = u32 (n + f.count) }

-- A round of the loop over the buffers to fill; `rest` is what the further ones give.
unfoldable pub fill : Bytes → List Bytes → Bytes × Bool → Filled → Filled
fill buf bufs (got, failed) rest =
    if failed && length got == 0
    then record { bufs = buf ∷ bufs; count = 0; status = 1 }
    else and_then (got ++ drop (length got) buf) (length got) rest

-- The case virtioBlkTIn.
unfoldable pub read_loop : Bytes → ℕ → List Bytes → Filled
read_loop contents offset [] = record { bufs = []; count = 0; status = 0 }
read_loop contents offset (buf ∷ bufs) =
    let r = read_at contents (length buf) offset in
    fill buf bufs r (read_loop contents (u64 (offset + length r.0)) bufs)

-- The loop of virtioBlkTOut: the file's bytes and the status.
unfoldable pub drain : Option Bytes → Bytes → (Bytes → Bytes × ℕ) → Bytes × ℕ
drain none contents rest = (contents, 1)
drain (some c) contents rest = rest c

unfoldable pub write_loop : Bytes → ℕ → List Bytes → Bytes × ℕ
write_loop contents offset [] = (contents, 0)
write_loop contents offset (buf ∷ bufs) =
    drain (write_at contents offset buf) contents
      (λ c. write_loop c (u64 (offset + length buf)) bufs)

-- What a request leaves: the number of bytes it reports, the writable buffers and the disk.
pub record Served : Type 0 where
  pub written : ℕ
  pub buffers : List Bytes
  pub disk : Disk

-- The status byte in the last buffer, which is in front of no other.
unfoldable pub set_status : ℕ → Bytes → Bytes
set_status s [] = []
set_status s (b ∷ bs) = s ∷ bs

abbrev pub finish : List Bytes → Bytes → ℕ → ℕ → Disk → Served
finish bufs status_buf count status d = record {
  written = if ltb 0 (length status_buf) then u32 (count + 1) else count;
  buffers = bufs ++ set_status status status_buf ∷ [];
  disk = d;
}

-- The writable buffers but for the last, and the last.
abbrev pub split_last : Bytes → List Bytes → List Bytes × Bytes
split_last b [] = ([], b)
split_last b (c ∷ cs) = let (front, last) = split_last c cs in (b ∷ front, last)

-- The case virtioBlkTOut, by whether the device is read-only.
unfoldable pub write_if : Bool → Disk → Bytes × ℕ → List Bytes → Bytes → Served
write_if true d w bufs status_buf = finish bufs status_buf 0 1 d
write_if false d w bufs status_buf = finish bufs status_buf 0 w.1 (record d { contents = w.0 })

-- The cases of the type of a request.
unfoldable pub perform : Disk → ℕ → ℕ → List Bytes → List Bytes → Bytes → Served
perform d type offset out bufs status_buf =
    let r = read_loop d.contents offset bufs in
    let w = write_loop d.contents offset out in
    if type == 0
    then finish r.bufs status_buf r.count r.status d
    else if type == 1
    then write_if d.read_only d w bufs status_buf
    else if type == 4
    then finish bufs status_buf 0 (if d.sync_fails then 1 else 0) d
    else finish bufs status_buf 0 2 d

-- The type and the sector of a header, which has 16 bytes or more.
unfoldable pub type_and_sector : Bytes → Option (ℕ × ℕ)
type_and_sector
      (t0 ∷ t1 ∷ t2 ∷ t3 ∷ r0 ∷ r1 ∷ r2 ∷ r3 ∷ s0 ∷ s1 ∷ s2 ∷ s3 ∷ s4 ∷ s5 ∷ s6 ∷ s7 ∷ more) =
    some (from_le32 t0 t1 t2 t3, from_le32 s0 s1 s2 s3 + from_le32 s4 s5 s6 s7 * 4294967296)
type_and_sector _ = none

-- A request with its first writable buffer and the further ones; int64(sector) * sectorSize wraps.
unfoldable pub with_header : Disk → Option (ℕ × ℕ) → List Bytes → Bytes → List Bytes → Served
with_header d none out b bs = record { written = 0; buffers = b ∷ bs; disk = d }
with_header d (some (type, sector)) out b bs =
    perform d type (u64 (sector * 512)) out (split_last b bs).0 (split_last b bs).1

-- handleRequest
unfoldable pub handle_request : Disk → List Bytes → List Bytes → Served
unfolding with_header
handle_request d [] bs = record { written = 0; buffers = bs; disk = d }
handle_request d (h ∷ out) [] = record { written = 0; buffers = []; disk = d }
handle_request d (h ∷ out) (b ∷ bs) = with_header d (type_and_sector h) out b bs
