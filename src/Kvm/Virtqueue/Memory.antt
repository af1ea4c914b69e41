-- ===== src/Kvm/Virtqueue/Memory.antt =====
-- guestSlice and the accessors over it (pkg/vm/kvm/virtio.go): where they are right, and where a
-- slice expression panics.
use sandal.Prelude.{
  ℕ, ◌+◌, ◌-◌, ◌*◌, ◌/◌, ◌≤◌, ◌<◌, ◌≡◌, ◌≢◌, refl, Option, none, some, leb, if◌then◌else◌, arith,
  ◌∙◌, ap,
}
use sandal.Prelude.Words.{u8}
use sandal.Kvm.Virtqueue.{
  ok, panics, Mem, Slice, guest_slice, read_u16, write_u16, update, le16, put16, write_u32, put32,
}

-- For an address in or above guest memory whose end does not pass 2^64, guestSlice gives the range
-- when all of it is in memory, and nil when not. It does not panic.
pub guest_slice_lem :
    (base : ℕ) (m : Mem) (gpa size : ℕ)
    → base ≤ gpa
    → gpa + size < 18446744073709551616
    → guest_slice base m gpa size
      ≡ ok (
          if leb (gpa + size) (base + m.size)
          then some (record { offset = gpa - base; count = size })
          else none)
unfolding guest_slice
guest_slice_lem base m gpa size h k = ground arith

-- For a range that begins below guest memory and ends in it, the length test passes on the wrapped
-- end, and the slice expression panics.
pub guest_slice_panics :
    (base : ℕ) (m : Mem) (gpa size : ℕ)
    → base < 18446744073709551616
    → size < 4294967296
    → gpa < base
    → base ≤ gpa + size
    → gpa + size ≤ base + m.size
    → m.size < 4611686018427387904
    → guest_slice base m gpa size ≡ panics
unfolding guest_slice
guest_slice_panics base m gpa size hb hs h k l s = ground arith

update_self : (f : ℕ → ℕ) (i b : ℕ) → update f i b i ≡ b
update_self f i b = ground arith

update_ne : (f : ℕ → ℕ) (i j b : ℕ) → i ≢ j → update f i b j ≡ f j
update_ne f i j b h = ground arith

le16-put16 :
    (base v : ℕ) (m : Mem) (s : Slice) → v < 65536 → le16 base (put16 v m (some s)) (some s) ≡ ok v
unfolding le16 put16
le16-put16 base v m s h =
    rw
      (
        update_self _ (s.offset + 1) (u8 (v / 256)),
        update_ne (update m.byte s.offset (u8 v)) (s.offset + 1) s.offset (u8 (v / 256))
            (omega arith),
        update_self m.byte s.offset (u8 v),
      )
      (ap ok (omega arith))

-- What was written is read back.
pub read-write_u16 :
    (base : ℕ) (m : Mem) (gpa v : ℕ)
    → base ≤ gpa
    → gpa + 2 ≤ base + m.size
    → base + m.size < 18446744073709551616
    → v < 65536
    → (n : Mem) × (write_u16 base m gpa v ≡ ok n) × (read_u16 base n gpa ≡ ok v) × (n.size ≡ m.size)
unfolding write_u16 read_u16
read-write_u16 base m gpa v h k l fits =
    let s : Option Slice = some (record { offset = gpa - base; count = 2 }) in
    let n : Mem = put16 v m s in
    let there : guest_slice base m gpa 2 ≡ ok s =
      guest_slice_lem base m gpa 2 h (omega arith) ∙ ground arith in
    let still : guest_slice base n gpa 2 ≡ ok s =
      guest_slice_lem base n gpa 2 h (omega arith) ∙ ground arith in
    (
      n,
      rw there,
      rw still (le16-put16 base v m (record { offset = gpa - base; count = 2 }) fits),
      refl,
    )

-- Within guest memory the accessors do not panic.
pub read_u16_ok :
    (base : ℕ) (m : Mem) (gpa : ℕ)
    → base ≤ gpa
    → gpa + 2 ≤ base + m.size
    → base + m.size < 18446744073709551616
    → (x : ℕ) × (read_u16 base m gpa ≡ ok x)
unfolding read_u16
read_u16_ok base m gpa h k l =
    let s : Option Slice = some (record { offset = gpa - base; count = 2 }) in
    let there : guest_slice base m gpa 2 ≡ ok s =
      guest_slice_lem base m gpa 2 h (omega arith) ∙ ground arith in
    (m.byte (gpa - base) + m.byte (gpa - base + 1) * 256, rw there)

pub write_u32_ok :
    (base : ℕ) (m : Mem) (gpa v : ℕ)
    → base ≤ gpa
    → gpa + 4 ≤ base + m.size
    → base + m.size < 18446744073709551616
    → (n : Mem) × (write_u32 base m gpa v ≡ ok n) × (n.size ≡ m.size)
unfolding write_u32
write_u32_ok base m gpa v h k l =
    let s : Option Slice = some (record { offset = gpa - base; count = 4 }) in
    let there : guest_slice base m gpa 4 ≡ ok s =
      guest_slice_lem base m gpa 4 h (omega arith) ∙ ground arith in
    (put32 v m s, rw there, refl)
