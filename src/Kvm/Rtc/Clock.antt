-- ===== src/Kvm/Rtc/Clock.antt =====
-- The clock that the guest reads (pkg/vm/kvm/rtc.go).
use sandal.Prelude.{ℕ, ◌+◌, ◌-◌, ◌/◌, ◌≤◌, ◌≡◌, ◌≢◌, Bool, true, false, some, arith}
use sandal.Prelude.Words.{Bytes, u32}
use sandal.Kvm.Mmio.{read_mmio_val, write_mmio_val}
use sandal.Kvm.Rtc.{Rtc, rtc_mmio, rtc_register, current_time, pl031_base}

-- Setting the clock at time `t` and reading it at `t'`, not before `t`, gives what was set and the
-- whole seconds in between, as a uint32. The read changes nothing.
pub set_then_read :
    (r : Rtc) (t t' : ℕ) (set_to answer : Bytes)
    → t ≤ t'
    → (s : Rtc) × (rtc_mmio t (pl031_base + 8) 4 true set_to r ≡ some (s, set_to))
      × (rtc_mmio t' pl031_base 4 false answer s
          ≡ some (
            s,
            write_mmio_val answer 4 (u32 (read_mmio_val set_to 4 + (t' - t) / 1_000_000_000)),
          ))
unfolding rtc_mmio rtc_register current_time
set_then_read r t t' set_to answer h =
    (record { base_time = read_mmio_val set_to 4; base_nano = t }, ground arith, ground arith)

-- Of the accesses that the clock handles, only those of the load register can change it.
rtc_mmio_frame :
    (r s : Rtc) (now addr size : ℕ) (w : Bool) (bytes out : Bytes)
    → rtc_mmio now addr size w bytes r ≡ some (s, out)
    → addr - pl031_base ≢ 8
    → s ≡ r
unfolding rtc_mmio
rtc_mmio_frame r s now addr size w bytes out e h = ground arith
