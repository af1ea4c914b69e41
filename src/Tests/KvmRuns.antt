-- ===== src/Tests/KvmRuns.antt =====
-- The serial port, the clock and the virtio registers of pkg/vm/kvm on short runs.
use sandal.Prelude.{
  ◌<◌, ◌≡◌, refl, true, false, some, none, List, [], ◌∷◌, ◌++◌, arith, length, get_or, get_elem?,
  if◌then◌else◌, ◌==◌, All, inl, inr,
}
use sandal.Prelude.Words.{Bytes}
use sandal.Kvm.Mmio.{read_mmio_val}
use sandal.Kvm.Uart.{
  Uart, Event, arrive, port_access, mmio_access, new_uart, run, step, handle_io, handle_mmio,
  mmio_write, mmio_peek, read_byte, write_byte, receive, update_irq,
}
use sandal.Kvm.Uart.Invariant.{IsWired, run-new_uart-IsWired}
use sandal.Kvm.Uart.Moves.{all_taken, all_arrivals, all_sent}
use sandal.Kvm.Uart.Flow.{InRange, run_flow}
use sandal.Kvm.Rtc.{Rtc, new_rtc, current_time}
use sandal.Kvm.Virtio.{
  net, Device, MmioDev, new_dev, write_reg, zero_queue, read_reg, write_le, virtio_mmio,
}
use sandal.Kvm.Virtio.Registers.{IsSound}
use sandal.Kvm.Virtio.QueueSetup.{writes, setup, ready_queue, setup_lem}

-- The guest enables the receive interrupt, two bytes arrive, it reads one and sends one.
abbrev session : List Event
session =
    mmio_access 0x0900_0038 4 true (16 ∷ 0 ∷ 0 ∷ 0 ∷ [])
    ∷ arrive (b'h' ∷ b'i' ∷ [])
    ∷ mmio_access 0x0900_0000 1 false (0 ∷ 0 ∷ 0 ∷ 0 ∷ [])
    ∷ port_access 1 0x3f8 b'!'
    ∷ []

session_runs :
    ((run new_uart session).input_buf ≡ b'i' ∷ [])
    × ((run new_uart session).output ≡ b'!' ∷ [])
    × ((run new_uart session).irq_lines ≡ true ∷ [])
unfolding run step handle_mmio handle_io mmio_write mmio_peek read_byte write_byte receive
    update_irq new_uart read_mmio_val
session_runs = (refl, refl, refl)

run-new_uart-IsWired_example : IsWired (run new_uart session)
run-new_uart-IsWired_example = run-new_uart-IsWired session

session-InRange : All InRange session
session-InRange = (
  (omega arith, inr (inr refl)),
  ((omega arith, (omega arith, tt)), ((omega arith, inl refl), (omega arith, tt))),
)

run_flow_example :
    (all_taken new_uart session ++ (run new_uart session).input_buf
      ≡ new_uart.input_buf ++ all_arrivals session)
    × ((run new_uart session).output ≡ new_uart.output ++ all_sent session)
run_flow_example = run_flow new_uart session (unfold new_uart in tt) session-InRange

abbrev waiting : Uart
waiting = record {
  input_buf = b'x' ∷ b'y' ∷ [];
  int_level = 16;
  int_enabled = 0;
  lcr = 0;
  cr = 0x301;
  irq_asserted = false;
  output = [];
  irq_lines = [];
}

abbrev four : Bytes
four = 1 ∷ 2 ∷ 3 ∷ 4 ∷ []

-- A clock made at 3.5 seconds reads 4 at 5.4 seconds: its base and what has elapsed are cut to
-- whole seconds, each.
cuts_seconds : current_time 5_400_000_000 (new_rtc 3_500_000_000) ≡ 4
unfolding current_time
cuts_seconds = refl

abbrev clock : Rtc
clock = record { base_time = 100; base_nano = 5 }

new_dev-IsSound : IsSound (new_dev 0x0a00_0000)
unfolding new_dev
new_dev-IsSound = omega arith

abbrev used_dev : MmioDev
used_dev = write_reg net 0x024 1 (new_dev 0x0a00_0000)

three_queues : 1 < length (new_dev 0x0a00_0000).queues
unfolding new_dev
three_queues = omega arith

setup_lem_example :
    get_elem? (writes net (setup 1 256 0x4000 1 0x5000 1 0x6000 1) (new_dev 0x0a00_0000)).queues 1
    ≡ (if 1 == 1
        then some (
            ready_queue 256 0x4000 1 0x5000 1 0x6000 1
              (get_or (new_dev 0x0a00_0000).queues 1 zero_queue))
        else get_elem? (new_dev 0x0a00_0000).queues 1)
setup_lem_example =
    setup_lem net 1 256 0x4000 1 0x5000 1 0x6000 1 (new_dev 0x0a00_0000) 1 (omega arith)
      (omega arith) (omega arith) three_queues

abbrev net_device : Device
net_device = record { device_id = 1; features = 32; config_read = λ _ _. 7; kind = net }

-- The magic value, the device's number, the high half of the features (VIRTIO_F_VERSION_1) and the
-- device's configuration; an address outside the window is not the device's.
reads_registers :
    (read_reg net_device 0 4 (new_dev 0xa00_0000) ≡ 0x7472_6976)
    × (virtio_mmio net_device 0xa00_0008 4 false (9 ∷ 9 ∷ 9 ∷ 9 ∷ []) (new_dev 0xa00_0000)
        ≡ some (new_dev 0xa00_0000, 1 ∷ 0 ∷ 0 ∷ 0 ∷ []))
    × (read_reg net_device 0x10 4 (record (new_dev 0xa00_0000) { dev_feat_sel = 1 }) ≡ 1)
    × (read_reg net_device 0x104 1 (new_dev 0xa00_0000) ≡ 7)
    × (virtio_mmio net_device 0xa00_0200 4 false [] (new_dev 0xa00_0000) ≡ none)
unfolding virtio_mmio read_reg write_le new_dev
reads_registers = (refl, refl, refl, refl, refl)
