-- ===== src/Kvm/Uart.antt =====
-- The serial port: pkg/vm/kvm/uart.go. Each method returns the new device. What the code sends
-- elsewhere is kept in the device: `output` is what it has written to the output file, and
-- `irq_lines` the levels it has given to KVM_IRQ_LINE, the latest first. The lock is held over each
-- method's update, so a run is a sequence of the events below.
pub mod Invariant
pub mod Moves
pub mod Flow
use Prim.Native.Nat.{bit_and, bit_or}
use sandal.Prelude.{
  ℕ, ◌+◌, ◌-◌, ◌/◌, ◌%◌, ◌≡◌, Bool, true, false, not, ◌&&◌, ◌||◌, Option, none, some, List, [], ◌∷◌,
  ◌++◌, length, get_or, leb, ltb, ◌==◌, if◌then◌else◌,
}
use sandal.Prelude.Words.{Bytes, u8}
use sandal.Kvm.Mmio.{read_mmio_val, write_mmio_val, and_not}

pub record Uart : Type 0 where
  pub input_buf : Bytes
  pub int_level : ℕ
  pub int_enabled : ℕ
  pub lcr : ℕ
  pub cr : ℕ
  pub irq_asserted : Bool
  pub output : Bytes
  pub irq_lines : List Bool

abbrev int_tx : ℕ
int_tx = 32

abbrev int_rx : ℕ
int_rx = 16

-- newUART
unfoldable pub new_uart : Uart
new_uart = record {
  input_buf = [];
  int_level = 0;
  int_enabled = 0;
  lcr = 0;
  cr = 0x0301;
  irq_asserted = false;
  output = [];
  irq_lines = [];
}

abbrev pub should_assert : Uart → Bool
should_assert u = not (bit_and u.int_level u.int_enabled == 0)

-- updateIRQLocked: `shouldAssert != u.irqAsserted` written out.
unfoldable pub update_irq : Uart → Uart
update_irq u =
    if should_assert u
    then (if u.irq_asserted
        then u
        else record u { irq_asserted = true; irq_lines = true ∷ u.irq_lines })
    else if u.irq_asserted
    then record u { irq_asserted = false; irq_lines = false ∷ u.irq_lines }
    else u

-- A round of readInput that read n > 0 bytes; a read of none changes nothing.
unfoldable pub receive : Bytes → Uart → Uart
receive [] u = u
receive (b ∷ bs) u =
    update_irq
      (record u { input_buf = u.input_buf ++ (b ∷ bs); int_level = bit_or u.int_level int_rx })

abbrev is_empty : Bytes → Bool
is_empty [] = true
is_empty (_ ∷ _) = false

has_input : Uart → Bool
has_input u = not (is_empty u.input_buf)

read_from : Bytes → Uart → Uart × Option ℕ
read_from [] u = (u, none)
read_from (b ∷ rest) u =
    let level = if is_empty rest then and_not u.int_level int_rx else u.int_level in
    (update_irq (record u { input_buf = rest; int_level = level }), some b)

unfoldable pub read_byte : Uart → Uart × Option ℕ
unfolding read_from
read_byte u = read_from u.input_buf u

unfoldable pub write_byte : ℕ → Uart → Uart
write_byte b u =
    update_irq (record u { output = u.output ++ b ∷ []; int_level = bit_or u.int_level int_tx })

-- The byte that an access hands to the guest, where the code sets 0 by default.
abbrev or_zero : Option ℕ → ℕ
or_zero none = 0
or_zero (some b) = b

-- handleIO on a port of the 16550; `byte` is what dataPtr points to, and the result what it holds
-- then. uint16 subtraction wraps, so a port below the base is out of range too.
unfoldable pub handle_io : ℕ → ℕ → ℕ → Uart → Uart × ℕ
unfolding has_input
handle_io direction port byte u =
    let reg = (port + 65536 - 0x3f8) % 65536 in
    if ltb 7 reg
    then (u, byte)
    else if direction == 1
    then (if reg == 0 then write_byte byte u else u, byte)
    else if reg == 0
    then (let (v, b) = read_byte u in (v, or_zero b))
    else if reg == 5
    then (u, if has_input u then 0x61 else 0x60)
    else if reg == 2
    then (u, 1)
    else (u, 0)

abbrev pub pl011_base : ℕ
pl011_base = 0x0900_0000

abbrev pl011_ids : List ℕ
pl011_ids = 0x11 ∷ 0x10 ∷ 0x34 ∷ 0x00 ∷ 0x0d ∷ 0xf0 ∷ 0x05 ∷ 0xb1 ∷ []

-- Enabling the transmit interrupt raises it at once, since the transmit queue is always empty.
kick : ℕ → ℕ → ℕ
kick val level = if bit_and val int_tx == 0 then level else bit_or level int_tx

-- The write half of handleMMIO.
unfoldable pub mmio_write : ℕ → ℕ → Uart → Uart
unfolding kick
mmio_write offset val u =
    if offset == 0x000
    then write_byte (u8 val) u
    else if offset == 0x038
    then update_irq (record u { int_enabled = val; int_level = kick val u.int_level })
    else if offset == 0x044
    then update_irq (record u { int_level = and_not u.int_level val })
    else if offset == 0x02c
    then record u { lcr = val }
    else if offset == 0x030
    then record u { cr = val }
    else u

-- The read half, but for the data register, which takes a byte away.
unfoldable pub mmio_peek : ℕ → Uart → ℕ
mmio_peek offset u =
    if offset == 0x018
    then (if is_empty u.input_buf then 0x90 else 0x80)
    else if offset == 0x030
    then u.cr
    else if offset == 0x02c
    then u.lcr
    else if offset == 0x038
    then u.int_enabled
    else if offset == 0x03c
    then u.int_level
    else if offset == 0x040
    then bit_and u.int_level u.int_enabled
    else if offset == 0x024 || offset == 0x028 || offset == 0x034
    then 0
    else if leb 0xfe0 offset && leb offset 0xffc
    then get_or pl011_ids ((offset - 0xfe0) / 4) 0
    else 0

-- handleMMIO; the result is the device and KVM's data array. A write leaves the array.
unfoldable pub handle_mmio : ℕ → ℕ → Bool → Bytes → Uart → Uart × Bytes
handle_mmio addr size is_write bytes u =
    if ltb addr pl011_base || leb (pl011_base + 0x1000) addr
    then (u, bytes)
    else let offset = addr - pl011_base in
      if is_write
      then (mmio_write offset (read_mmio_val bytes size) u, bytes)
      else if offset == 0x000
      then (let (v, b) = read_byte u in (v, write_mmio_val bytes size (or_zero b)))
      else (u, write_mmio_val bytes size (mmio_peek offset u))

-- What happens to the device: bytes arrive from the host, or the guest accesses a register.
pub data Event : Type 0 where
  arrive : Bytes → Event
  port_access : (direction port byte : ℕ) → Event
  mmio_access : (addr size : ℕ) → Bool → Bytes → Event

unfoldable pub step : Uart → Event → Uart
step u (arrive bs) = receive bs u
step u (port_access direction port byte) = (handle_io direction port byte u).0
step u (mmio_access addr size is_write bytes) = (handle_mmio addr size is_write bytes u).0

unfoldable pub run : Uart → List Event → Uart
run u [] = u
run u (e ∷ es) = run (step u e) es
