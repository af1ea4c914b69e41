-- ===== src/Kvm/Uart/Moves.antt =====
-- What the parts of the serial port (pkg/vm/kvm/uart.go) do with the bytes of both directions.

use sandal.Prelude.{
  ℕ, ◌≡◌, refl, sym, ◌∙◌, Bool, false, not, ◌&&◌, Option, none, some, List, [], ◌∷◌, ◌++◌,
  append-nil, arith, ◌==◌, if◌then◌else◌, Bool-cases, inl, inr,
}
use sandal.Prelude.Words.{Bytes, u8}
use sandal.Kvm.Mmio.{read_mmio_val}
use sandal.Kvm.Uart.{
  Uart, Event, arrive, port_access, mmio_access, update_irq, receive, read_byte, write_byte,
  handle_io, handle_mmio, mmio_write, step, read_from, pl011_base,
}

-- The accesses that take a byte, and those that send one, by the registers' addresses.
abbrev pub takes : Event → Bool
takes (arrive bs) = false
takes (port_access d p b) = not (d == 1) && p == 0x3f8
takes (mmio_access a n w bs) = not w && a == pl011_base

abbrev pub sends : Event → Bytes
sends (arrive bs) = []
sends (port_access d p b) = if d == 1 && p == 0x3f8 then b ∷ [] else []
sends (mmio_access a n w bs) = if w && a == pl011_base then u8 (read_mmio_val bs n) ∷ [] else []

abbrev pub arrivals : Event → Bytes
arrivals (arrive bs) = bs
arrivals _ = []

abbrev pub taken_byte : Option ℕ → Bytes
taken_byte none = []
taken_byte (some b) = b ∷ []

-- What an event takes from the buffer: what readByte returns to a data access.
abbrev pub moved : Uart → Event → Bytes
moved u e = if takes e then taken_byte (read_byte u).1 else []

-- What an access hands to the guest: the byte of the port, or the value of KVM's data array.
abbrev pub delivered : Uart → Event → ℕ
delivered u (arrive bs) = 0
delivered u (port_access d p b) = (handle_io d p b u).1
delivered u (mmio_access a n w bs) = read_mmio_val (handle_mmio a n w bs u).1 n

abbrev pub if_waiting : Bytes → ℕ → Bytes
if_waiting [] v = []
if_waiting (_ ∷ _) v = v ∷ []

-- What the guest gets of the input: the answers to its data accesses while bytes wait.
abbrev pub taken : Uart → Event → Bytes
taken u e = if takes e then if_waiting u.input_buf (delivered u e) else []

abbrev pub all_taken : Uart → List Event → Bytes
all_taken u [] = []
all_taken u (e ∷ es) = taken u e ++ all_taken (step u e) es

abbrev pub all_arrivals : List Event → Bytes
all_arrivals [] = []
all_arrivals (e ∷ es) = arrivals e ++ all_arrivals es

abbrev pub all_sent : List Event → Bytes
all_sent [] = []
all_sent (e ∷ es) = sends e ++ all_sent es

-- An event's effect on the two byte streams.
pub record Moves (u v : Uart) (out arrived sent : Bytes) : Type 0 where
  pub inward : out ++ v.input_buf ≡ u.input_buf ++ arrived
  pub outward : v.output ≡ u.output ++ sent

pub update_irq-input_buf : (u : Uart) → (update_irq u).input_buf ≡ u.input_buf
unfolding update_irq
update_irq-input_buf u = ground arith

update_irq-output : (u : Uart) → (update_irq u).output ≡ u.output
unfolding update_irq
update_irq-output u = ground arith

pub still : (u v : Uart) → v.input_buf ≡ u.input_buf → v.output ≡ u.output → Moves u v [] [] []
still u v a b = record {
  inward = a ∙ sym (append-nil u.input_buf);
  outward = b ∙ sym (append-nil u.output);
}

pub receive-Moves : (bs : Bytes) (u : Uart) → Moves u (receive bs u) [] bs []
unfolding receive
receive-Moves [] u = still u u refl refl
receive-Moves (b ∷ bs) u = record {
  inward = rw update_irq-input_buf refl;
  outward = rw update_irq-output (sym (append-nil u.output));
}

read_from-Moves :
    (bs : Bytes) (u : Uart)
    → u.input_buf ≡ bs
    → Moves u (read_from bs u).0 (taken_byte (read_from bs u).1) [] []
unfolding read_from
read_from-Moves [] u e = still u u refl refl
read_from-Moves (b ∷ bs) u e = record {
  inward = rw (update_irq-input_buf, append-nil u.input_buf) (sym e);
  outward = rw update_irq-output (sym (append-nil u.output));
}

pub read_byte-Moves : (u : Uart) → Moves u (read_byte u).0 (taken_byte (read_byte u).1) [] []
unfolding read_byte
read_byte-Moves u = read_from-Moves u.input_buf u refl

pub write_byte-Moves : (b : ℕ) (u : Uart) → Moves u (write_byte b u) [] [] (b ∷ [])
unfolding write_byte
write_byte-Moves b u = record {
  inward = rw update_irq-input_buf (sym (append-nil u.input_buf));
  outward = rw update_irq-output refl;
}

pub mmio_write-Moves :
    (offset val : ℕ) (u : Uart)
    → Moves u (mmio_write offset val u) [] [] (if offset == 0 then u8 val ∷ [] else [])
unfolding mmio_write update_irq
mmio_write-Moves offset val u = elim (Bool-cases (offset == 0)) [
  | inl e ↦ rw e (write_byte-Moves (u8 val) u)
  | inr e ↦ rw e (still u _ (ground arith) (ground arith))
]
