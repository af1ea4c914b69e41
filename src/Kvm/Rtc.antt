-- ===== src/Kvm/Rtc.antt =====
-- The PL031 clock: pkg/vm/kvm/rtc.go. `now` is time.Now().UnixNano() at the call.
pub mod Clock
use sandal.Prelude.{
  ℕ, ◌+◌, ◌-◌, ◌/◌, ◌%◌, Bool, true, false, ◌||◌, ◌&&◌, Option, none, some, List, [], ◌∷◌, get_or,
  leb, ltb, ◌==◌, if◌then◌else◌,
}
use sandal.Prelude.Words.{Bytes, u32}
use sandal.Kvm.Mmio.{read_mmio_val, write_mmio_val}

pub record Rtc : Type 0 where
  pub base_time : ℕ
  pub base_nano : ℕ

-- newRTC
abbrev pub new_rtc : ℕ → Rtc
new_rtc now = record { base_time = now / 1_000_000_000; base_nano = now }

-- currentTime. The division of a negative elapsed time is towards zero, and uint32 wraps.
unfoldable pub current_time : ℕ → Rtc → ℕ
current_time now r =
    if leb r.base_nano now
    then u32 (r.base_time + (now - r.base_nano) / 1_000_000_000)
    else u32 (r.base_time + 18446744073709551616 - (r.base_nano - now) / 1_000_000_000)

abbrev pub pl031_base : ℕ
pl031_base = 0x0901_0000

abbrev pl031_ids : List ℕ
pl031_ids = 0x31 ∷ 0x10 ∷ 0x04 ∷ 0x00 ∷ 0x0d ∷ 0xf0 ∷ 0x05 ∷ 0xb1 ∷ []

pub rtc_register : ℕ → ℕ → Rtc → ℕ
rtc_register now offset r =
    if offset == 0x000
    then current_time now r
    else if offset == 0x00c
    then 1
    else if offset == 0x004 || offset == 0x014 || offset == 0x018 || offset == 0x010
    then 0
    else if leb 0xfe0 offset && leb offset 0xffc
    then get_or pl031_ids ((offset - 0xfe0) / 4) 0
    else 0

-- rtc.handleMMIO: `none` where it returns false, else the device and KVM's data array.
pub rtc_mmio : ℕ → ℕ → ℕ → Bool → Bytes → Rtc → Option (Rtc × Bytes)
rtc_mmio now addr size is_write bytes r =
    if ltb addr pl031_base || leb (pl031_base + 0x1000) addr
    then none
    else let offset = addr - pl031_base in
      if is_write
      then (if offset == 0x008
          then some (record { base_time = read_mmio_val bytes size; base_nano = now }, bytes)
          else some (r, bytes))
      else some (r, write_mmio_val bytes size (rtc_register now offset r))
