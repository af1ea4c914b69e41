-- ===== src/Kvm/Virtqueue.antt =====
-- Guest memory and the split rings: pkg/vm/kvm/virtio.go, from ProcessSingleAvailNoIRQ on. A Go
-- slice of guest memory is its offset and size. A run-time panic is an outcome, and `diverges` says
-- that the fuel of a loop was not enough.
pub mod Memory
pub mod Chains
pub mod Rings
use Prim.Native.Nat.{bit_and}
use sandal.Prelude.{
  ℕ, zero, suc, ◌+◌, ◌-◌, ◌*◌, ◌/◌, ◌%◌, ◌≡◌, Bool, true, false, not, ◌||◌, Option, none, some,
  List, [], ◌∷◌, ◌++◌, length, get_or, set, leb, ltb, ◌==◌, if◌then◌else◌,
}
use sandal.Prelude.Words.{u8, u16, u32, u64, sub64}
use sandal.Kvm.Virtio.{MmioDev, Virtqueue, zero_queue, inject_irq}

pub data Outcome {ℓ} (A : Type ℓ) : Type ℓ where
  ok : A → Outcome A
  panics diverges : Outcome A

infixl 5 ◌>>=◌
abbrev pub ◌>>=◌ {ℓ κ} : {A : Type ℓ} {B : Type κ} → Outcome A → (A → Outcome B) → Outcome B
ok a >>= f = f a
panics >>= f = panics
diverges >>= f = diverges

-- v.mem: byte(i) is its content below `size`.
pub record Mem : Type 0 where
  pub size : ℕ
  pub byte : ℕ → ℕ

pub record Slice : Type 0 where
  pub offset : ℕ
  pub count : ℕ

pub record Desc : Type 0 where
  pub addr : ℕ
  pub len : ℕ
  pub flags : ℕ
  pub next : ℕ

-- `v.mem[offset : offset+size]` panics if its end, a uint64 that may have wrapped, lies below its
-- start.
cut : ℕ → ℕ → Mem → Outcome (Option Slice)
cut offset size m =
    if ltb m.size (u64 (offset + size))
    then ok none
    else if ltb (u64 (offset + size)) offset
    then panics
    else ok (some (record { offset = offset; count = size }))

-- guestMemBase, a constant of each architecture.
module _ (base : ℕ) where
  -- guestSlice
  unfoldable pub guest_slice : Mem → ℕ → ℕ → Outcome (Option Slice)
  unfolding cut
  guest_slice m gpa size = cut (sub64 gpa base) size m

module _ (base : ℕ) (m : Mem) where
  le16 : Option Slice → Outcome ℕ
  le16 none = ok 0
  le16 (some s) = ok (m.byte s.offset + m.byte (s.offset + 1) * 256)

  le32 : Option Slice → Outcome ℕ
  le32 none = ok 0
  le32 (some s) = ok (
      m.byte s.offset
      + m.byte (s.offset + 1) * 256
      + m.byte (s.offset + 2) * 65536
      + m.byte (s.offset + 3) * 16777216)

  -- readGuestU16, readGuestU32, readGuestU64: 0 where the address is outside.
  unfoldable pub read_u16 : ℕ → Outcome ℕ
  unfolding le16
  read_u16 gpa = do s ← guest_slice base m gpa 2; le16 s

  unfoldable pub read_u32 : ℕ → Outcome ℕ
  unfolding le32
  read_u32 gpa = do s ← guest_slice base m gpa 4; le32 s

  le64 : Option Slice → Outcome ℕ
  unfolding le32
  le64 none = ok 0
  le64 (some s) = do
    low ← le32 (some s)
    high ← le32 (some (record s { offset = s.offset + 4 }))
    ok (low + high * 4294967296)

  unfoldable pub read_u64 : ℕ → Outcome ℕ
  unfolding le64
  read_u64 gpa = do s ← guest_slice base m gpa 8; le64 s

  -- readDescriptor
  unfoldable pub read_descriptor : Virtqueue → ℕ → Outcome Desc
  unfolding read_u16 read_u32 read_u64
  read_descriptor q idx = do
    let off = u64 (q.desc_addr + idx * 16)
    addr ← read_u64 off
    len ← read_u32 (u64 (off + 8))
    flags ← read_u16 (u64 (off + 12))
    next ← read_u16 (u64 (off + 14))
    ok (record { addr = addr; len = len; flags = flags; next = next })

abbrev pub update : (ℕ → ℕ) → ℕ → ℕ → ℕ → ℕ
update f i b j = if j == i then b else f j

put16 : ℕ → Mem → Option Slice → Mem
put16 v m none = m
put16 v m (some s) = record m {
  byte = update (update m.byte s.offset (u8 v)) (s.offset + 1) (u8 (v / 256));
}

put32 : ℕ → Mem → Option Slice → Mem
unfolding put16
put32 v m none = m
put32 v m (some s) =
    put16 (v / 65536) (put16 v m (some s)) (some (record s { offset = s.offset + 2 }))

-- writeGuestU16, writeGuestU32: nothing where the address is outside.
unfoldable pub write_u16 : ℕ → Mem → ℕ → ℕ → Outcome Mem
unfolding put16
write_u16 base m gpa v = do s ← guest_slice base m gpa 2; ok (put16 v m s)

unfoldable pub write_u32 : ℕ → Mem → ℕ → ℕ → Outcome Mem
unfolding put32
write_u32 base m gpa v = do s ← guest_slice base m gpa 4; ok (put32 v m s)

-- The buffers of a chain: those the device reads, and those it writes.
pub record Buffers : Type 0 where
  pub readable : List Slice
  pub writable : List Slice

-- A descriptor's buffer, if it lies in memory, at the end of its list (flag 2 is F_WRITE).
unfoldable pub add_buffer : Desc → Option Slice → Buffers → Buffers
add_buffer d none bs = bs
add_buffer d (some s) bs =
    if bit_and d.flags 2 == 0
    then record bs { readable = bs.readable ++ s ∷ [] }
    else record bs { writable = bs.writable ++ s ∷ [] }

-- The loop over a descriptor chain, a round for each unit of fuel (flag 1 is F_NEXT).
unfoldable pub walk : ℕ → ℕ → Mem → Virtqueue → ℕ → Buffers → Outcome Buffers
walk zero base m q idx bs = diverges
walk (suc fuel) base m q idx bs = do
  d ← read_descriptor base m q idx
  buf ← guest_slice base m d.addr d.len
  let bs' = add_buffer d buf bs
  let rest = walk fuel base m q d.next bs'
  if bit_and d.flags 1 == 0 then ok bs' else rest

-- handler(readBufs, writeBufs): the number that it returns, and the memory after it.
abbrev pub Handler : Type 0
Handler = Buffers → Mem → ℕ × Mem

abbrev pub no_buffers : Buffers
no_buffers = record { readable = []; writable = [] }

-- x % uint16(q.num) panics if that is 0.
unfoldable pub ring_slot : ℕ → Virtqueue → Outcome ℕ
ring_slot x q = if u16 q.num == 0 then panics else ok (x % u16 q.num)

-- The part of ProcessSingleAvailNoIRQ and of a round of ProcessAvailRing that takes one chain, from
-- reading the ring to `q.lastAvail++`; both have the same text.
unfoldable pub serve_chain : ℕ → ℕ → Handler → Mem → Virtqueue → Outcome (Virtqueue × Mem)
serve_chain fuel base handler m q = do
  slot ← ring_slot q.last_avail q
  head ← read_u16 base m (u64 (q.drv_addr + (4 + slot * 2)))
  bs ← walk fuel base m q head no_buffers
  let (written, m1) = handler bs m
  used ← read_u16 base m1 (u64 (q.dev_addr + 2))
  used_slot ← ring_slot used q
  m2 ← write_u32 base m1 (u64 (q.dev_addr + (4 + used_slot * 8))) head
  m3 ← write_u32 base m2 (u64 (u64 (q.dev_addr + (4 + used_slot * 8)) + 4)) written
  m4 ← write_u16 base m3 (u64 (q.dev_addr + 2)) (u16 (used + 1))
  ok (record q { last_avail = u16 (q.last_avail + 1) }, m4)

abbrev put_queue : MmioDev → ℕ → Virtqueue → MmioDev
put_queue v i q = record v { queues = set v.queues i q }

-- ProcessSingleAvailNoIRQ
unfoldable pub process_single_no_irq :
    ℕ → ℕ → Handler → ℕ → MmioDev → Mem → Outcome (Bool × MmioDev × Mem)
process_single_no_irq fuel base handler i v m =
    let q = get_or v.queues i zero_queue in
    let served = (do
      avail ← read_u16 base m (u64 (q.drv_addr + 2))
      if q.last_avail == avail
          then ok (false, v, m)
          else do r ← serve_chain fuel base handler m q; ok (true, put_queue v i r.0, r.1)) in
    if leb (length v.queues) i || not q.ready || q.num == 0 then ok (false, v, m) else served

-- ProcessSingleAvail
unfoldable pub process_single : ℕ → ℕ → Handler → ℕ → MmioDev → Mem → Outcome (Bool × MmioDev × Mem)
process_single fuel base handler i v m = do
  r ← process_single_no_irq fuel base handler i v m
  if r.0 then ok (true, inject_irq r.1, r.2) else ok (false, r.1, r.2)

-- The loop of ProcessAvailRing on a queue: the queue, the memory and whether it served a chain.
unfoldable pub ring_loop :
    ℕ → ℕ → ℕ → Handler → Virtqueue → Mem → Bool → Outcome (Virtqueue × Mem × Bool)
ring_loop zero fuel base handler q m processed = diverges
ring_loop (suc rounds) fuel base handler q m processed = do
  avail ← read_u16 base m (u64 (q.drv_addr + 2))
  let rest = (do
    r ← serve_chain fuel base handler m q
    ring_loop rounds fuel base handler r.0 r.1 true)
  if q.last_avail == avail then ok (q, m, processed) else rest

-- ProcessAvailRing
unfoldable pub process_avail_ring :
    ℕ → ℕ → ℕ → Handler → ℕ → MmioDev → Mem → Outcome (MmioDev × Mem)
process_avail_ring rounds fuel base handler i v m =
    let q = get_or v.queues i zero_queue in
    let served = (do
      r ← ring_loop rounds fuel base handler q m false
      let w = put_queue v i r.0
      ok (if r.2 then inject_irq w else w, r.1)) in
    if leb (length v.queues) i || not q.ready || q.num == 0 then ok (v, m) else served
