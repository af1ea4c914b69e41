-- ===== src/Tests/RingRuns.antt =====
-- The rings of pkg/vm/kvm/virtio.go on a small guest memory.
use sandal.Prelude.{
  ℕ, ◌+◌, ◌*◌, ◌-◌, ◌≡◌, refl, true, false, Option, some, none, [], ◌∷◌, arith, leb, ◌==◌,
  if◌then◌else◌,
}
use sandal.Prelude.Words.{u16, u64}
use sandal.Kvm.Virtio.{new_dev, MmioDev, Virtqueue}
use sandal.Kvm.Virtqueue.{
  ok, panics, diverges, Mem, Slice, Desc, guest_slice, read_u16, write_u16, read_descriptor,
  read_u32, read_u64, no_buffers, Handler, walk, serve_chain, process_single_no_irq, ring_slot,
  ring_loop, process_avail_ring, process_single, ◌>>=◌, add_buffer, write_u32,
}
use sandal.Kvm.Virtqueue.Memory.{guest_slice_lem, guest_slice_panics}
use sandal.Kvm.Virtqueue.Chains.{last, Reads, gather, IsClosed, walk_diverges}
use sandal.Kvm.Virtqueue.Rings.{slot_of, serve_chain_lem, process_single_panics}

-- Descriptor 0 is a buffer of 16 bytes at 0x400 for the device to write; descriptor 1 links to
-- itself. The available index is 1, and its first entry is descriptor 0.
abbrev content : ℕ → ℕ
content i =
    if i == 0x101
    then 4
    else if i == 0x108
    then 16
    else if i == 0x10c
    then 2
    else if i == 0x11c
    then 1
    else if i == 0x11e
    then 1
    else if i == 0x202
    then 1
    else 0

abbrev guest : Mem
guest = record { size = 4096; byte = content }

abbrev queue : Virtqueue
queue = record {
  num = 4;
  ready = true;
  desc_addr = 0x100;
  drv_addr = 0x200;
  dev_addr = 0x300;
  last_avail = 0;
}

abbrev answer : Handler
answer bs m = (16, m)

abbrev first : Desc
first = record { addr = 0x400; len = 16; flags = 2; next = 0 }

abbrev buffer : Option Slice
buffer = some (record { offset = 0x400; count = 16 })

first-Reads : Reads 0 guest queue 0 first buffer
unfolding read_descriptor read_u16 read_u32 read_u64 guest_slice
first-Reads = record { descriptor = refl; buffer = refl }

guest_slice_lem_example :
    guest_slice 0x4000_0000 guest 0x4000_0ff0 32
    ≡ ok (
        if leb (0x4000_0ff0 + 32) (0x4000_0000 + guest.size)
        then some (record { offset = 0x4000_0ff0 - 0x4000_0000; count = 32 })
        else none)
guest_slice_lem_example =
    guest_slice_lem 0x4000_0000 guest 0x4000_0ff0 32 (omega arith) (omega arith)

guest_slice_panics_example : guest_slice 0x4000_0000 guest 0x3fff_ffff 2 ≡ panics
guest_slice_panics_example =
    guest_slice_panics 0x4000_0000 guest 0x3fff_ffff 2 (omega arith) (omega arith) (omega arith)
      (omega arith) (omega arith) (omega arith)

abbrev circular : Desc
circular = record { addr = 0; len = 0; flags = 1; next = 1 }

circular-Reads : Reads 0 guest queue 1 circular (some (record { offset = 0; count = 0 }))
unfolding read_descriptor read_u16 read_u32 read_u64 guest_slice
circular-Reads = record { descriptor = refl; buffer = refl }

-- The descriptors that link only to themselves: descriptor 1.
abbrev circle : IsClosed 0 guest queue (λ i. i ≡ 1)
circle = record {
  desc = λ i p. circular;
  buf = λ i p. some (record { offset = 0; count = 0 });
  reads = λ i p. rw p circular-Reads;
  linked = λ i p. refl;
  stays = λ i p. refl;
}

walk_diverges_example : walk 1000 0 guest queue 1 no_buffers ≡ diverges
walk_diverges_example = walk_diverges 0 guest queue (λ i. i ≡ 1) 1 1000 no_buffers circle refl

head_is_first : read_u16 0 guest (queue.drv_addr + (4 + slot_of queue.last_avail queue * 2)) ≡ ok 0
unfolding read_u16 guest_slice
head_is_first = refl

serve_chain_lem_example :
    (used : ℕ) × (n : Mem) × (read_u16 0
        (answer (gather no_buffers ((first, buffer) ∷ [])) guest).1
        (queue.dev_addr + 2)
      ≡ ok used)
    × (serve_chain 5 0 answer guest queue
        ≡ ok (record queue { last_avail = u16 (queue.last_avail + 1) }, n))
    × (read_u16 0 n (queue.dev_addr + 2) ≡ ok (u16 (used + 1)))
serve_chain_lem_example =
    serve_chain_lem 5 0 answer guest queue 0 ((first, buffer) ∷ []) (omega arith) (λ bs. refl)
      head_is_first (last first-Reads refl) (omega arith)

-- The queue served by the whole loop: one chain, and then the ring is empty.
drains : (q : Virtqueue) × (m : Mem) × (ring_loop 3 5 0 answer queue guest false ≡ ok (q, m, true))
unfolding ring_loop serve_chain ring_slot walk add_buffer read_descriptor read_u16 read_u32 read_u64
    write_u16 write_u32 guest_slice
drains = (record queue { last_avail = 1 }, _, refl)

abbrev wide : MmioDev
wide = record {
  base_addr = 0x0a00_0000;
  status = 0;
  dev_feat_sel = 0;
  drv_feat_sel = 0;
  drv_features = 0;
  queue_sel = 0;
  queues = record queue { num = 65536 } ∷ [];
  interrupt_stat = 0;
  config_gen = 0;
  effects = [];
}

avail_is_one : read_u16 0 guest (u64 (0x200 + 2)) ≡ ok 1
unfolding read_u16 guest_slice
avail_is_one = refl

process_single_panics_example : process_single_no_irq 5 0 answer 0 wide guest ≡ panics
process_single_panics_example =
    process_single_panics 5 0 answer 0 wide guest 1 (omega arith) refl (omega arith) refl
      avail_is_one (omega arith)

abbrev device : MmioDev
device = record (new_dev 0xa00_0000) { queues = queue ∷ [] }

serves_ring :
    ((process_avail_ring 2 3 0 answer 0 device guest >>= (λ r. read_u16 0 r.1 0x302)) ≡ ok 1)
    × ((process_single 3 0 answer 0 device guest >>= (λ r. read_u16 0 r.2 0x302)) ≡ ok 1)
unfolding process_avail_ring process_single process_single_no_irq ring_loop serve_chain walk
    ring_slot read_descriptor read_u16 read_u32 read_u64 write_u16 write_u32 guest_slice add_buffer
    new_dev
serves_ring = (refl, refl)
