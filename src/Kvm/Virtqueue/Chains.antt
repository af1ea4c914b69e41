-- ===== src/Kvm/Virtqueue/Chains.antt =====
-- Descriptor chains (pkg/vm/kvm/virtio.go): when the walk along one ends, and with which buffers.
use Prim.Native.Nat.{bit_and}
use sandal.Prelude.{
  ℕ, zero, suc, ◌≤◌, ◌≡◌, refl, true, false, Option, List, [], ◌∷◌, length, ◌==◌, arith,
}
use sandal.Kvm.Virtio.{Virtqueue}
use sandal.Kvm.Virtqueue.{
  ok, diverges, Mem, Slice, Desc, guest_slice, read_descriptor, Buffers, add_buffer, walk,
}

module _ (base : ℕ) (m : Mem) (q : Virtqueue) where
  -- The descriptor at an index, with its buffer if that lies in memory.
  pub record Reads (idx : ℕ) (d : Desc) (s : Option Slice) : Type 0 where
    pub descriptor : read_descriptor base m q idx ≡ ok d
    pub buffer : guest_slice base m d.addr d.len ≡ ok s

  -- A chain that ends: F_NEXT is set on all but the last descriptor.
  pub data Chain : ℕ → List (Desc × Option Slice) → Type 0 where
    last :
        {idx : ℕ} {d : Desc} {s : Option Slice}
        → Reads idx d s
        → (bit_and d.flags 1 == 0) ≡ true
        → Chain idx ((d, s) ∷ [])
    more :
        {idx : ℕ} {d : Desc} {s : Option Slice} {ds : List (Desc × Option Slice)}
        → Reads idx d s
        → (bit_and d.flags 1 == 0) ≡ false
        → Chain d.next ds
        → Chain idx ((d, s) ∷ ds)

abbrev pub gather : Buffers → List (Desc × Option Slice) → Buffers
gather bs [] = bs
gather bs ((d, s) ∷ ds) = gather (add_buffer d s bs) ds

module _ (base : ℕ) (m : Mem) (q : Virtqueue) where
  -- On a chain that ends the walk ends, with as much fuel as the chain has descriptors, and gives
  -- the buffers of all of them, in order, each in the list of its direction.
  pub walk-Chain :
      (idx : ℕ) (ds : List (Desc × Option Slice)) (fuel : ℕ) (bs : Buffers)
      → Chain base m q idx ds
      → length ds ≤ fuel
      → walk fuel base m q idx bs ≡ ok (gather bs ds)
  unfolding walk
  walk-Chain idx ds zero bs (last r e) h = elim h [ ]
  walk-Chain idx ds zero bs (more r e c) h = elim h [ ]
  walk-Chain idx ds (suc fuel) bs (last r e) h = rw (r.descriptor, r.buffer, e)
  walk-Chain idx ds (suc fuel) bs (more {d = d} {s = s} {ds = rest} r e c) h =
      rw (r.descriptor, r.buffer, e)
        (walk-Chain d.next rest fuel (add_buffer d s bs) c (omega arith))

  -- A set of descriptors that links only to itself.
  pub record IsClosed (P : ℕ → Type 0) : Type 0 where
    pub desc : (idx : ℕ) → P idx → Desc
    pub buf : (idx : ℕ) → P idx → Option Slice
    pub reads : (idx : ℕ) (p : P idx) → Reads base m q idx (desc idx p) (buf idx p)
    pub linked : (idx : ℕ) (p : P idx) → (bit_and (desc idx p).flags 1 == 0) ≡ false
    pub stays : (idx : ℕ) (p : P idx) → P (desc idx p).next

  -- A guest that links descriptors in a circle keeps the walk from ending, whatever the fuel: the
  -- loop has no bound on the descriptors of a chain.
  pub walk_diverges :
      (P : ℕ → Type 0) (idx fuel : ℕ) (bs : Buffers)
      → IsClosed P
      → P idx
      → walk fuel base m q idx bs ≡ diverges
  unfolding walk
  walk_diverges P idx zero bs c p = refl
  walk_diverges P idx (suc fuel) bs c p =
      let r = c.reads idx p in
      rw (r.descriptor, r.buffer, c.linked idx p)
        (walk_diverges P (c.desc idx p).next fuel _ c (c.stays idx p))
