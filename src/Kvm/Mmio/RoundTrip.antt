-- ===== src/Kvm/Mmio/RoundTrip.antt =====
-- A value written to KVM's data array is read back from it (pkg/vm/kvm/uart.go).
use sandal.Prelude.{ℕ, ◌*◌, ◌%◌, ◌^◌, ◌≤◌, ◌≡◌, ◌⊎◌, arith, ◌∷◌, length}
use sandal.Prelude.Words.{Bytes}
use sandal.Kvm.Mmio.{read_mmio_val, write_mmio_val}

-- Reading back an access of 1, 2 or 4 bytes gives the low bytes of what was written, in an array
-- of four bytes or more.
pub read-write_mmio_val :
    (b : Bytes) (n v : ℕ)
    → 4 ≤ length b
    → (n ≡ 1) ⊎ (n ≡ 2) ⊎ (n ≡ 4)
    → v % 4294967296 ≡ v
    → read_mmio_val (write_mmio_val b n v) n ≡ v % 2 ^ (8 * n)
unfolding read_mmio_val write_mmio_val
read-write_mmio_val (w ∷ x ∷ y ∷ z ∷ b) n v h k fits = ground arith
read-write_mmio_val _ n v h k fits = absurd (omega arith)
