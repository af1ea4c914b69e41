-- ===== src/Kvm/Virtio.antt =====
-- The registers of the virtio-MMIO transport: pkg/vm/kvm/virtio.go. The calls that leave the device
-- (a queue notification, a configuration write, the start of a vhost backend) are kept in
-- `effects`, the latest first; the code makes them in goroutines of their own.
pub mod Registers
pub mod QueueSetup
use Prim.Native.Nat.{bit_and, bit_or}
use sandal.Prelude.{
  ℕ, ◌+◌, ◌-◌, ◌*◌, ◌/◌, ◌%◌, Bool, true, false, not, ◌||◌, Option, none, some, List, [], ◌∷◌,
  length, get_or, set, leb, ltb, ◌==◌, if◌then◌else◌,
}
use sandal.Prelude.Words.{Bytes, u8, u32}
use sandal.Kvm.Mmio.{read_mmio_val, and_not}

pub record Virtqueue : Type 0 where
  pub num : ℕ
  pub ready : Bool
  pub desc_addr : ℕ
  pub drv_addr : ℕ
  pub dev_addr : ℕ
  pub last_avail : ℕ

-- virtqueue{}
abbrev pub zero_queue : Virtqueue
zero_queue = record {
  num = 0;
  ready = false;
  desc_addr = 0;
  drv_addr = 0;
  dev_addr = 0;
  last_avail = 0;
}

-- The types that the switch on the device tells apart.
pub data Kind : Type 0 where
  vsock net other : Kind

-- virtioDevice: what the transport asks of a device. Each device type of the package implements it.
pub record Device : Type 0 where
  pub device_id : ℕ
  pub features : ℕ
  pub config_read : ℕ → ℕ → ℕ
  pub kind : Kind

pub data Effect : Type 0 where
  handle_queue : ℕ → Effect
  config_write : ℕ → ℕ → ℕ → Effect
  setup_vsock setup_net raise_irq : Effect

pub record MmioDev : Type 0 where
  pub base_addr : ℕ
  pub status : ℕ
  pub dev_feat_sel : ℕ
  pub drv_feat_sel : ℕ
  pub drv_features : ℕ
  pub queue_sel : ℕ
  pub queues : List Virtqueue
  pub interrupt_stat : ℕ
  pub config_gen : ℕ
  pub effects : List Effect

abbrev zero_queues : List Virtqueue
zero_queues = zero_queue ∷ zero_queue ∷ zero_queue ∷ []

-- newVirtioMMIODev
unfoldable pub new_dev : ℕ → MmioDev
new_dev base = record {
  base_addr = base;
  status = 0;
  dev_feat_sel = 0;
  drv_feat_sel = 0;
  drv_features = 0;
  queue_sel = 0;
  queues = zero_queues;
  interrupt_stat = 0;
  config_gen = 0;
  effects = [];
}

-- currentQueue: nil where the selector is out of range.
pub current_queue : MmioDev → Option Virtqueue
current_queue v =
    if leb (length v.queues) v.queue_sel
    then none
    else some (get_or v.queues v.queue_sel zero_queue)

-- `if q := v.currentQueue(); q != nil` around an assignment to a field of q.
pub on_queue : (Virtqueue → Virtqueue) → MmioDev → MmioDev
unfolding current_queue
on_queue f v = elim (current_queue v) [
  | none ↦ v
  | some q ↦ record v { queues = set v.queues v.queue_sel (f q) }
]

-- (x & 0xFFFFFFFF00000000) | uint64(val), and the same of the high half, for a uint32 val.
abbrev pub with_low : ℕ → ℕ → ℕ
with_low x val = x / 4294967296 * 4294967296 + val

abbrev pub with_high : ℕ → ℕ → ℕ
with_high x val = x % 4294967296 + val * 4294967296

-- reset
reset : MmioDev → MmioDev
reset v = record v {
  status = 0;
  dev_feat_sel = 0;
  drv_feat_sel = 0;
  drv_features = 0;
  queue_sel = 0;
  interrupt_stat = 0;
  queues = zero_queues;
}

abbrev pub emit : Effect → MmioDev → MmioDev
emit e v = record v { effects = e ∷ v.effects }

-- injectIRQ; the eventfd of setupIRQFD is taken to be there.
abbrev pub inject_irq : MmioDev → MmioDev
inject_irq v = record v {
  interrupt_stat = bit_or v.interrupt_stat 1;
  effects = raise_irq ∷ v.effects;
}

-- The switch on the device's type where the driver signals DRIVER_OK.
start_backend : Kind → MmioDev → MmioDev
start_backend vsock v = emit setup_vsock v
start_backend net v = emit setup_net v
start_backend other v = v

write_status : Kind → ℕ → MmioDev → MmioDev
unfolding start_backend reset
write_status k val v =
    let w = if val == 0 then reset (record v { status = val }) else record v { status = val } in
    if bit_and val 4 == 0 then w else start_backend k w

-- writeReg. uint32 arguments; offsets below the configuration space that no case names are ignored.
pub write_reg : Kind → ℕ → ℕ → MmioDev → MmioDev
unfolding write_status
write_reg k offset val v =
    if offset == 0x014
    then record v { dev_feat_sel = val }
    else if offset == 0x020
    then (if v.drv_feat_sel == 0
        then record v { drv_features = with_low v.drv_features val }
        else record v { drv_features = with_high v.drv_features val })
    else if offset == 0x024
    then record v { drv_feat_sel = val }
    else if offset == 0x030
    then record v { queue_sel = val }
    else if offset == 0x038
    then on_queue (λ q. record q { num = val }) v
    else if offset == 0x044
    then on_queue (λ q. record q { ready = not (val == 0) }) v
    else if offset == 0x050
    then emit (handle_queue val) v
    else if offset == 0x064
    then record v { interrupt_stat = and_not v.interrupt_stat val }
    else if offset == 0x070
    then write_status k val v
    else if offset == 0x080
    then on_queue (λ q. record q { desc_addr = with_low q.desc_addr val }) v
    else if offset == 0x084
    then on_queue (λ q. record q { desc_addr = with_high q.desc_addr val }) v
    else if offset == 0x090
    then on_queue (λ q. record q { drv_addr = with_low q.drv_addr val }) v
    else if offset == 0x094
    then on_queue (λ q. record q { drv_addr = with_high q.drv_addr val }) v
    else if offset == 0x0a0
    then on_queue (λ q. record q { dev_addr = with_low q.dev_addr val }) v
    else if offset == 0x0a4
    then on_queue (λ q. record q { dev_addr = with_high q.dev_addr val }) v
    else if leb 0x100 offset
    then emit (config_write (offset - 0x100) 4 val) v
    else v

ready_bit : Option Virtqueue → ℕ
ready_bit none = 0
ready_bit (some q) = if q.ready then 1 else 0

-- readReg. VIRTIO_F_VERSION_1 (bit 32) is always offered.
unfoldable pub read_reg : Device → ℕ → ℕ → MmioDev → ℕ
unfolding ready_bit current_queue
read_reg d offset size v =
    if offset == 0x000
    then 0x7472_6976
    else if offset == 0x004
    then 2
    else if offset == 0x008
    then d.device_id
    else if offset == 0x00c
    then 0x554d_4551
    else if offset == 0x010
    then (let features = bit_or d.features (4294967296) in
        if v.dev_feat_sel == 0 then u32 features else u32 (features / 4294967296))
    else if offset == 0x034
    then 256
    else if offset == 0x044
    then ready_bit (current_queue v)
    else if offset == 0x060
    then v.interrupt_stat
    else if offset == 0x070
    then v.status
    else if offset == 0x0fc
    then v.config_gen
    else if leb 0x100 offset
    then d.config_read (offset - 0x100) size
    else 0

-- writeLE: an access of any other size leaves the array.
unfoldable pub write_le : Bytes → ℕ → ℕ → Bytes
write_le b size val =
    if size == 1
    then set b 0 (u8 val)
    else if size == 2
    then set (set b 0 (u8 val)) 1 (u8 (val / 256))
    else if size == 4
    then set (set (set (set b 0 (u8 val)) 1 (u8 (val / 256))) 2 (u8 (val / 65536))) 3
        (u8 (val / 16777216))
    else b

-- HandleMMIO: `none` where it returns false.
unfoldable pub virtio_mmio : Device → ℕ → ℕ → Bool → Bytes → MmioDev → Option (MmioDev × Bytes)
virtio_mmio d addr size is_write bytes v =
    if ltb addr v.base_addr || leb (v.base_addr + 0x200) addr
    then none
    else let offset = u32 (addr - v.base_addr) in
      if is_write
      then some (write_reg d.kind offset (read_mmio_val bytes size) v, bytes)
      else some (v, write_le bytes size (read_reg d offset size v))
