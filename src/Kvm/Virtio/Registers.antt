-- ===== src/Kvm/Virtio/Registers.antt =====
-- What the virtio-MMIO registers (pkg/vm/kvm/virtio.go) do to the device.

use sandal.Prelude.{
  ℕ, zero, suc, ◌<◌, ◌≡◌, refl, not, List, [], ◌∷◌, length, get_or, set, All, ◌==◌, arith, ap,
}
use sandal.Kvm.Virtio.{
  Virtqueue, zero_queue, Kind, MmioDev, new_dev, current_queue, on_queue, with_low, with_high,
  write_status, write_reg,
}

-- Queue addresses and the driver's features stay 64-bit words, and there are three queues.
pub record QueueFits (q : Virtqueue) : Type 0 where
  pub desc_fits : q.desc_addr < 18446744073709551616
  pub drv_fits : q.drv_addr < 18446744073709551616
  pub dev_fits : q.dev_addr < 18446744073709551616
  pub num_fits : q.num < 4294967296
  pub last_fits : q.last_avail < 65536

pub record IsSound (v : MmioDev) : Type 0 where
  pub three : length v.queues ≡ 3
  pub fits : All QueueFits v.queues
  pub features_fit : v.drv_features < 18446744073709551616

set-fits :
    (qs : List Virtqueue) (i : ℕ) (q : Virtqueue)
    → All QueueFits qs
    → QueueFits q
    → All QueueFits (set qs i q)
set-fits [] i q h k = h
set-fits (p ∷ qs) zero q h k = (k, h.1)
set-fits (p ∷ qs) (suc i) q h k = (h.0, set-fits qs i q h.1 k)

get_or-fits : (qs : List Virtqueue) (i : ℕ) → All QueueFits qs → QueueFits (get_or qs i zero_queue)
get_or-fits [] i h = omega arith
get_or-fits (p ∷ qs) zero h = h.0
get_or-fits (p ∷ qs) (suc i) h = get_or-fits qs i h.1

length-set : (qs : List Virtqueue) (i : ℕ) (q : Virtqueue) → length (set qs i q) ≡ length qs
length-set [] i q = refl
length-set (p ∷ qs) zero q = refl
length-set (p ∷ qs) (suc i) q = ap suc (length-set qs i q)

on_queue-IsSound :
    (f : Virtqueue → Virtqueue) (v : MmioDev)
    → ((q : Virtqueue) → QueueFits q → QueueFits (f q))
    → IsSound v
    → IsSound (on_queue f v)
unfolding on_queue current_queue
on_queue-IsSound f v keep s =
    let q : Virtqueue = get_or v.queues v.queue_sel zero_queue in
    ground (
      arith,
      length-set v.queues v.queue_sel (f q),
      set-fits v.queues v.queue_sel (f q) s.fits (keep q (get_or-fits v.queues v.queue_sel s.fits)),
    )

write_status-IsSound :
    (k : Kind) (val : ℕ) (v : MmioDev) → IsSound v → IsSound (write_status k val v)
unfolding write_status
write_status-IsSound k val v s = ground arith

-- A register write of a uint32 value keeps the device sound, whatever register it names.
pub write_reg-IsSound :
    (k : Kind) (offset val : ℕ) (v : MmioDev)
    → val < 4294967296
    → IsSound v
    → IsSound (write_reg k offset val v)
unfolding write_reg
write_reg-IsSound k offset val v h s = ground (
  arith,
  write_status-IsSound k val v s,
  on_queue-IsSound (λ q. record q { num = val }) v (λ q f. ground arith) s,
  on_queue-IsSound (λ q. record q { ready = not (val == 0) }) v (λ q f. ground arith) s,
  on_queue-IsSound (λ q. record q { desc_addr = with_low q.desc_addr val }) v (λ q f. ground arith)
      s,
  on_queue-IsSound (λ q. record q { desc_addr = with_high q.desc_addr val }) v (λ q f. ground arith)
      s,
  on_queue-IsSound (λ q. record q { drv_addr = with_low q.drv_addr val }) v (λ q f. ground arith) s,
  on_queue-IsSound (λ q. record q { drv_addr = with_high q.drv_addr val }) v (λ q f. ground arith)
      s,
  on_queue-IsSound (λ q. record q { dev_addr = with_low q.dev_addr val }) v (λ q f. ground arith) s,
  on_queue-IsSound (λ q. record q { dev_addr = with_high q.dev_addr val }) v (λ q f. ground arith)
      s,
)

-- Writing 0 to the status register makes the device as new: only its address, the configuration
-- generation and the calls already made are kept.
write_status_zero :
    (k : Kind) (v : MmioDev)
    → write_reg k 0x070 0 v
      ≡ record (new_dev v.base_addr) { config_gen = v.config_gen; effects = v.effects }
unfolding write_reg write_status new_dev
write_status_zero k v = ground arith
