-- ===== src/Kvm/Virtqueue/Rings.antt =====
-- One descriptor chain through the rings (pkg/vm/kvm/virtio.go): served as the rings ask, or a
-- panic where the queue's size makes the ring index a division by zero.
use sandal.Prelude.{
  ℕ, ◌+◌, ◌*◌, ◌%◌, ◌≤◌, ◌<◌, ◌≡◌, ◌≢◌, refl, true, Option, List, length, get_or, arith, ◌∙◌, ap,
}
use sandal.Prelude.Words.{u16, u64}
use sandal.Kvm.Virtio.{MmioDev, Virtqueue, zero_queue}
use sandal.Kvm.Virtqueue.{
  Outcome, ok, panics, ◌>>=◌, Mem, Slice, Desc, read_u16, write_u16, write_u32, Buffers, no_buffers,
  Handler, ring_slot, serve_chain, process_single_no_irq,
}
use sandal.Kvm.Virtqueue.Memory.{read_u16_ok, write_u32_ok, read-write_u16}
use sandal.Kvm.Virtqueue.Chains.{Chain, gather, walk-Chain}

-- The rings of a queue lie in guest memory, and its size is a uint16 other than 0.
pub record RingsFit (base : ℕ) (q : Virtqueue) (size : ℕ) : Type 0 where
  pub some_slots : 0 < q.num
  pub num_fits : q.num < 65536
  pub drv_from : base ≤ q.drv_addr
  pub drv_to : q.drv_addr + 4 + q.num * 2 ≤ base + size
  pub dev_from : base ≤ q.dev_addr
  pub dev_to : q.dev_addr + 4 + q.num * 8 ≤ base + size
  pub fits : base + size < 18446744073709551616

-- The index of the ring's next entry.
abbrev pub slot_of : ℕ → Virtqueue → ℕ
slot_of x q = x % q.num

ring_slot_lem :
    (x : ℕ) (q : Virtqueue) → 0 < q.num → q.num < 65536 → ring_slot x q ≡ ok (slot_of x q)
unfolding ring_slot
ring_slot_lem x q h k = let e : u16 q.num ≡ q.num = omega arith in rw e (ground arith)

slot_bound : (x : ℕ) (q : Virtqueue) → 0 < q.num → slot_of x q < q.num
slot_bound x q h = omega arith

u64_lem : (x : ℕ) → x < 18446744073709551616 → u64 x ≡ x
u64_lem x h = omega arith

>>=-ok {ℓ κ} :
    {A : Type ℓ} {B : Type κ} (x : Outcome A) (g : A → Outcome B) {a : A} {r : Outcome B}
    → x ≡ ok a
    → g a ≡ r
    → (x >>= g) ≡ r
>>=-ok x g e h = rw e h

-- A chain is served to the end: with rings in guest memory, a chain that ends at the head that the
-- available ring names, fuel for its length, and a handler that leaves the size of memory alone,
-- the handler gets the chain's buffers, the used index of guest memory goes up by one (as a
-- uint16), and so does the queue's position, and nothing else of the queue changes.
pub serve_chain_lem :
    (fuel base : ℕ) (handler : Handler) (m : Mem) (q : Virtqueue) (head : ℕ)
    (ds : List (Desc × Option Slice))
    → RingsFit base q m.size
    → ((bs : Buffers) → (handler bs m).1.size ≡ m.size)
    → read_u16 base m (q.drv_addr + (4 + slot_of q.last_avail q * 2)) ≡ ok head
    → Chain base m q head ds
    → length ds ≤ fuel
    → (used : ℕ) × (n : Mem) × (read_u16 base (handler (gather no_buffers ds) m).1 (q.dev_addr + 2)
        ≡ ok used)
      × (serve_chain fuel base handler m q
          ≡ ok (record q { last_avail = u16 (q.last_avail + 1) }, n))
      × (read_u16 base n (q.dev_addr + 2) ≡ ok (u16 (used + 1)))
unfolding serve_chain
serve_chain_lem fuel base handler m q head ds f keeps at_head chain enough =
    let bs = gather no_buffers ds in
    let m1 : Mem = (handler bs m).1 in
    let e1 : m1.size ≡ m.size = keeps bs in
    let (used, u) =
      read_u16_ok base m1 (q.dev_addr + 2) (omega arith) (omega arith) (omega arith) in
    let us = slot_of used q in
    let b1 : slot_of used q < q.num = slot_bound used q f.some_slots in
    let (m2, w2, e2) =
      write_u32_ok base m1 (q.dev_addr + (4 + us * 8)) head (omega arith) (omega arith)
        (omega arith) in
    let (m3, w3, e3) =
      write_u32_ok base m2 (q.dev_addr + (4 + us * 8) + 4) (handler bs m).0 (omega arith)
        (omega arith) (omega arith) in
    let (m4, w4, r4, e4) =
      read-write_u16 base m3 (q.dev_addr + 2) (u16 (used + 1)) (omega arith) (omega arith)
        (omega arith) (omega arith) in
    let b0 : slot_of q.last_avail q < q.num = slot_bound q.last_avail q f.some_slots in
    let a0 : u64 (q.drv_addr + (4 + slot_of q.last_avail q * 2))
        ≡ q.drv_addr + (4 + slot_of q.last_avail q * 2) =
      u64_lem _ (omega arith) in
    let a1 : u64 (q.dev_addr + 2) ≡ q.dev_addr + 2 = u64_lem _ (omega arith) in
    let a2 : u64 (q.dev_addr + (4 + us * 8)) ≡ q.dev_addr + (4 + us * 8) =
      u64_lem _ (omega arith) in
    let a3 : u64 (q.dev_addr + (4 + us * 8) + 4) ≡ q.dev_addr + (4 + us * 8) + 4 =
      u64_lem _ (omega arith) in
    (
      used,
      m4,
      u,
      >>=-ok (ring_slot q.last_avail q) _ (ring_slot_lem q.last_avail q f.some_slots f.num_fits) (
          >>=-ok _ _ (ap (read_u16 base m) a0 ∙ at_head) (
            >>=-ok _ _ (walk-Chain base m q head ds fuel no_buffers chain enough) (
              >>=-ok _ _ (ap (read_u16 base m1) a1 ∙ u) (
                >>=-ok (ring_slot used q) _ (ring_slot_lem used q f.some_slots f.num_fits) (
                  >>=-ok _ _ (ap (λ a. write_u32 base m1 a head) a2 ∙ w2) (
                    >>=-ok _ _
                      (ap (λ a. write_u32 base m2 (u64 (a + 4)) (handler bs m).0) a2
                        ∙ ap (λ a. write_u32 base m2 a (handler bs m).0) a3
                        ∙ w3)
                      (>>=-ok _ _ (ap (λ a. write_u16 base m3 a (u16 (used + 1))) a1 ∙ w4)
                        refl))))))),
      r4,
    )

-- A queue size that is a multiple of 65536, which the size register accepts, is 0 as a uint16: on
-- the first chain that the driver offers, the ring index is a division by zero, and the code
-- panics.
pub process_single_panics :
    (fuel base : ℕ) (handler : Handler) (i : ℕ) (v : MmioDev) (m : Mem) (avail : ℕ)
    → i < length v.queues
    → (get_or v.queues i zero_queue).ready ≡ true
    → (get_or v.queues i zero_queue).num ≢ 0
    → u16 (get_or v.queues i zero_queue).num ≡ 0
    → read_u16 base m (u64 ((get_or v.queues i zero_queue).drv_addr + 2)) ≡ ok avail
    → (get_or v.queues i zero_queue).last_avail ≢ avail
    → process_single_no_irq fuel base handler i v m ≡ panics
unfolding process_single_no_irq serve_chain ring_slot
process_single_panics fuel base handler i v m avail h ready some_num wraps at ne = ground arith
