-- ===== src/Kvm/Mmio.antt =====
-- Register accesses as KVM reports them (pkg/vm/kvm/uart.go, virtio.go): the bytes of an access as
-- a little-endian number, and back. KVM's data array has 8 bytes, so the indices are in range.
pub mod RoundTrip
use Prim.Native.Nat.{bit_and, bit_xor}
use sandal.Prelude.{
  ℕ, ◌+◌, ◌*◌, ◌/◌, ◌%◌, ◌<◌, ◌≡◌, refl, List, [], ◌∷◌, arith, get_or, ◌==◌, if◌then◌else◌, length,
  set,
}
use sandal.Prelude.Words.{Bytes, u8}

-- x &^ y on uint32
abbrev pub and_not : ℕ → ℕ → ℕ
and_not x y = bit_and x (bit_xor y 0xffff_ffff)

-- readMMIOVal, and readLE of virtio.go, which has the same body.
unfoldable pub read_mmio_val : Bytes → ℕ → ℕ
read_mmio_val b n =
    if n == 1
    then get_or b 0 0
    else if n == 2
    then get_or b 0 0 + get_or b 1 0 * 256
    else if n == 4
    then get_or b 0 0 + get_or b 1 0 * 256 + get_or b 2 0 * 65536 + get_or b 3 0 * 16777216
    else 0

-- writeMMIOVal: byte(val >> (i * 8)) for i < length and i < 4, here from the last to the first.
pub write_mmio_val : Bytes → ℕ → ℕ → Bytes
write_mmio_val b n v =
    if n == 0
    then b
    else if n == 1
    then set b 0 (u8 v)
    else if n == 2
    then set (set b 0 (u8 v)) 1 (u8 (v / 256))
    else if n == 3
    then set (set (set b 0 (u8 v)) 1 (u8 (v / 256))) 2 (u8 (v / 65536))
    else set (set (set (set b 0 (u8 v)) 1 (u8 (v / 256))) 2 (u8 (v / 65536))) 3 (u8 (v / 16777216))
