-- ===== src/Kvm/Uart/Flow.antt =====
-- What the serial port (pkg/vm/kvm/uart.go) does with the bytes of both directions.
use mathlib.Core.Path.{subst}
use sandal.Prelude.{
  ℕ, ◌-◌, ◌<◌, ◌≤◌, ◌*◌, ◌%◌, ◌^◌, ◌⊎◌, length, true, ◌≡◌, refl, sym, ap, ◌∙◌, Bool, none, some,
  List, [], ◌∷◌, ◌++◌, append_assoc, append-nil, arith, Bool-cases, inl, inr, All,
}
use sandal.Prelude.Words.{Bytes, IsByte}
use sandal.Kvm.Mmio.{read_mmio_val, write_mmio_val}
use sandal.Kvm.Mmio.RoundTrip.{read-write_mmio_val}
use sandal.Kvm.Uart.{
  Uart, Event, arrive, port_access, mmio_access, read_byte, handle_io, handle_mmio, step, run,
  read_from, pl011_base, or_zero,
}
use sandal.Kvm.Uart.Moves.{
  takes, sends, arrivals, taken_byte, moved, delivered, if_waiting, taken, all_taken, all_arrivals,
  all_sent, Moves, update_irq-input_buf, receive-Moves, read_byte-Moves, write_byte-Moves,
  mmio_write-Moves,
}

handle_io-Moves :
    (d p b : ℕ) (u : Uart)
    → p < 65536
    → Moves u (handle_io d p b u).0 (moved u (port_access d p b)) [] (sends (port_access d p b))
unfolding handle_io
handle_io-Moves d p b u h =
    ground
      (arith, read_byte-Moves u, write_byte-Moves b u, append-nil u.input_buf, append-nil u.output)

handle_mmio-Moves :
    (a n : ℕ) (w : Bool) (bs : Bytes) (u : Uart)
    → Moves u
        (handle_mmio a n w bs u).0
        (moved u (mmio_access a n w bs))
        []
        (sends (mmio_access a n w bs))
unfolding handle_mmio
handle_mmio-Moves a n w bs u = ground (
  arith,
  read_byte-Moves u,
  mmio_write-Moves (a - pl011_base) (read_mmio_val bs n) u,
  append-nil u.input_buf,
  append-nil u.output,
)

-- An event's ports are uint16, what arrives is bytes, and KVM's data array has room for an access
-- of 1, 2 or 4 bytes.
abbrev pub InRange : Event → Type 0
InRange (arrive bs) = All IsByte bs
InRange (port_access d p b) = p < 65536
InRange (mmio_access a n w bs) = (4 ≤ length bs) × ((n ≡ 1) ⊎ (n ≡ 2) ⊎ (n ≡ 4))

step-Moves :
    (u : Uart) (e : Event) → InRange e → Moves u (step u e) (moved u e) (arrivals e) (sends e)
unfolding step
step-Moves u (arrive bs) h = receive-Moves bs u
step-Moves u (port_access d p b) h = handle_io-Moves d p b u h
step-Moves u (mmio_access a n w bs) h = handle_mmio-Moves a n w bs u

read_byte-cases :
    (u : Uart)
    → ((u.input_buf ≡ []) × ((read_byte u).1 ≡ none))
      ⊎ ((b : ℕ) × (rest : Bytes) × (u.input_buf ≡ b ∷ rest) × ((read_byte u).1 ≡ some b))
unfolding read_byte read_from
read_byte-cases u = of u.input_buf
  where
    of :
        (bs : Bytes)
        → ((bs ≡ []) × ((read_from bs u).1 ≡ none))
          ⊎ ((b : ℕ) × (rest : Bytes) × (bs ≡ b ∷ rest) × ((read_from bs u).1 ≡ some b))
    of [] = inl (refl, refl)
    of (b ∷ rest) = inr (b, rest, refl, refl)

-- A data access hands out what readByte returns, 0 for none.
delivered_lem :
    (u : Uart) (e : Event) (b : ℕ)
    → IsByte b
    → InRange e
    → takes e ≡ true
    → (read_byte u).1 ≡ some b
    → delivered u e ≡ b
unfolding handle_io handle_mmio
delivered_lem u (arrive bs) b l r t h = cc
delivered_lem u (port_access d p x) b l r t h = ground (arith, h)
delivered_lem u (mmio_access a n w bs) b l r t h =
    let back : read_mmio_val (write_mmio_val bs n b) n ≡ b =
      read-write_mmio_val bs n b r.0 r.1 (omega (arith, l)) ∙ small r.1 in
    ground (arith, h, back)
  where
    small : (n ≡ 1) ⊎ (n ≡ 2) ⊎ (n ≡ 4) → b % 2 ^ (8 * n) ≡ b
    small k = ground (arith, k, l)

taken-moved : (u : Uart) (e : Event) → All IsByte u.input_buf → InRange e → taken u e ≡ moved u e
taken-moved u e h r = elim (Bool-cases (takes e)) [
  | inr t ↦ rw t refl
  | inl t ↦ elim (read_byte-cases u) [
    | inl (q, n) ↦ rw t (ap (λ x. if_waiting x (delivered u e)) q ∙ sym (ap taken_byte n))
    | inr (b, rest, q, n) ↦
        (let l : IsByte b = (subst (All IsByte) q h).0 in
          rw t (
            ap (λ x. if_waiting x (delivered u e)) q
            ∙ (ap (λ v. v ∷ []) (delivered_lem u e b l r t n) ∙ sym (ap taken_byte n))))
  ]
]

All-append : (a b : Bytes) → All IsByte a → All IsByte b → All IsByte (a ++ b)
All-append [] b h k = k
All-append (x ∷ a) b (l, h) k = (l, All-append a b h k)

All-append_right : (a b : Bytes) → All IsByte (a ++ b) → All IsByte b
All-append_right [] b h = h
All-append_right (x ∷ a) b (l, h) = All-append_right a b h

arrivals-IsByte : (e : Event) → InRange e → All IsByte (arrivals e)
arrivals-IsByte (arrive bs) h = h
arrivals-IsByte (port_access d p b) h = tt
arrivals-IsByte (mmio_access a n w bs) h = tt

step-IsByte :
    (u : Uart) (e : Event) → InRange e → All IsByte u.input_buf → All IsByte (step u e).input_buf
step-IsByte u e r h = All-append_right (moved u e) (step u e).input_buf (
    subst (All IsByte) (sym (step-Moves u e r).inward)
      (All-append u.input_buf (arrivals e) h (arrivals-IsByte e r)))

-- Whatever the events, no byte is lost, doubled or reordered: what the guest is handed by its data
-- accesses while bytes wait, followed by what still waits, is what waited at first, followed by all
-- that has arrived. The output has grown by the bytes that the guest sent, in order. The ports are
-- uint16, an access through KVM's data array is of 1, 2 or 4 bytes, and what arrives is bytes.
pub run_flow :
    (u : Uart) (es : List Event)
    → All IsByte u.input_buf
    → All InRange es
    → (all_taken u es ++ (run u es).input_buf ≡ u.input_buf ++ all_arrivals es)
      × ((run u es).output ≡ u.output ++ all_sent es)
unfolding run
run_flow u [] l h = (sym (append-nil u.input_buf), sym (append-nil u.output))
run_flow u (e ∷ es) l h =
    let m = step-Moves u e h.0 in
    let inward : taken u e ++ (step u e).input_buf ≡ u.input_buf ++ arrivals e =
      ap (λ t. t ++ (step u e).input_buf) (taken-moved u e l h.0) ∙ m.inward in
    let (i, o) = run_flow (step u e) es (step-IsByte u e h.0 l) h.1 in
    (
      append_assoc (taken u e) (all_taken (step u e) es) _
          ∙ ap (λ t. taken u e ++ t) i
          ∙ sym (append_assoc (taken u e) (step u e).input_buf (all_arrivals es))
          ∙ ap (λ t. t ++ all_arrivals es) inward
          ∙ append_assoc u.input_buf (arrivals e) (all_arrivals es),
      o ∙ ap (λ t. t ++ all_sent es) m.outward ∙ append_assoc u.output (sends e) (all_sent es),
    )

-- The line status register of the 16550: transmitter empty, and data ready if a byte waits.
abbrev line_status : Bytes → ℕ
line_status [] = 0x60
line_status (_ ∷ _) = 0x61

abbrev oldest : Bytes → ℕ
oldest [] = 0
oldest (b ∷ _) = b

abbrev pub later : Bytes → Bytes
later [] = []
later (_ ∷ rest) = rest

read_from-oldest :
    (bs : Bytes) (u : Uart)
    → u.input_buf ≡ bs
    → (or_zero (read_from bs u).1 ≡ oldest bs) × ((read_from bs u).0.input_buf ≡ later bs)
unfolding read_from
read_from-oldest [] u e = (refl, e)
read_from-oldest (b ∷ rest) u e = (refl, rw update_irq-input_buf refl)

-- A read of the 16550's status reports whether a byte waits and takes nothing; a read of its data
-- register gives the byte that has waited longest (0 if none does) and leaves the others.
poll_and_read :
    (u : Uart) (x : ℕ)
    → (handle_io 0 0x3fd x u ≡ (u, line_status u.input_buf))
      × ((handle_io 0 0x3f8 x u).1 ≡ oldest u.input_buf)
      × ((handle_io 0 0x3f8 x u).0.input_buf ≡ later u.input_buf)
unfolding handle_io read_byte
poll_and_read u x = ground (arith, read_from-oldest u.input_buf u refl)
