-- ===== src/Kvm/Uart/Invariant.antt =====
-- What holds of the serial port (pkg/vm/kvm/uart.go) after any events.

use sandal.Prelude.{ℕ, ◌-◌, ◌≡◌, refl, Bool, false, not, List, [], ◌∷◌, arith}
use sandal.Prelude.Words.{Bytes}
use sandal.Kvm.Mmio.{read_mmio_val}
use sandal.Kvm.Uart.{
  Uart, Event, arrive, port_access, mmio_access, new_uart, should_assert, update_irq, receive,
  read_byte, write_byte, handle_io, handle_mmio, mmio_write, step, run, read_from, pl011_base,
}

-- The levels sent to KVM alternate, the latest is `b`, and the first raised the line.
abbrev Alternate : Bool → List Bool → Type 0
Alternate b [] = b ≡ false
Alternate b (x ∷ xs) = (x ≡ b) × Alternate (not b) xs

pub record IsWired (u : Uart) : Type 0 where
  pub follows : u.irq_asserted ≡ should_assert u
  pub alternate : Alternate u.irq_asserted u.irq_lines

update_irq-IsWired : (u : Uart) → Alternate u.irq_asserted u.irq_lines → IsWired (update_irq u)
unfolding update_irq
update_irq-IsWired u h = ground arith

receive-IsWired : (bs : Bytes) (u : Uart) → IsWired u → IsWired (receive bs u)
unfolding receive
receive-IsWired [] u h = h
receive-IsWired (b ∷ bs) u h = update_irq-IsWired _ h.alternate

read_from-IsWired : (bs : Bytes) (u : Uart) → IsWired u → IsWired (read_from bs u).0
unfolding read_from
read_from-IsWired [] u h = h
read_from-IsWired (b ∷ bs) u h = update_irq-IsWired _ h.alternate

read_byte-IsWired : (u : Uart) → IsWired u → IsWired (read_byte u).0
unfolding read_byte
read_byte-IsWired u h = read_from-IsWired u.input_buf u h

write_byte-IsWired : (b : ℕ) (u : Uart) → IsWired u → IsWired (write_byte b u)
unfolding write_byte
write_byte-IsWired b u h = update_irq-IsWired _ h.alternate

mmio_write-IsWired : (offset val : ℕ) (u : Uart) → IsWired u → IsWired (mmio_write offset val u)
unfolding mmio_write write_byte update_irq
mmio_write-IsWired offset val u h = ground arith

handle_io-IsWired : (d p b : ℕ) (u : Uart) → IsWired u → IsWired (handle_io d p b u).0
unfolding handle_io
handle_io-IsWired d p b u h = ground (arith, read_byte-IsWired u h, write_byte-IsWired b u h)

handle_mmio-IsWired :
    (a n : ℕ) (w : Bool) (bs : Bytes) (u : Uart) → IsWired u → IsWired (handle_mmio a n w bs u).0
unfolding handle_mmio
handle_mmio-IsWired a n w bs u h =
    ground
      (arith, read_byte-IsWired u h, mmio_write-IsWired (a - pl011_base) (read_mmio_val bs n) u h)

step-IsWired : (u : Uart) (e : Event) → IsWired u → IsWired (step u e)
unfolding step
step-IsWired u (arrive bs) h = receive-IsWired bs u h
step-IsWired u (port_access d p b) h = handle_io-IsWired d p b u h
step-IsWired u (mmio_access a n w bs) h = handle_mmio-IsWired a n w bs u h

run-IsWired : (u : Uart) (es : List Event) → IsWired u → IsWired (run u es)
unfolding run
run-IsWired u [] h = h
run-IsWired u (e ∷ es) h = run-IsWired (step u e) es (step-IsWired u e h)

-- After any events, the interrupt line is up exactly when an enabled interrupt is pending, and
-- KVM has been told each change of it and nothing twice.
pub run-new_uart-IsWired : (es : List Event) → IsWired (run new_uart es)
unfolding new_uart
run-new_uart-IsWired es = run-IsWired _ es (record { follows = refl; alternate = refl })
