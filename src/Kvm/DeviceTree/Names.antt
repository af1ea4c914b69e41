-- ===== src/Kvm/DeviceTree/Names.antt =====
-- The names of the machine of pkg/vm/kvm/vcpu_arm64.go have no zero, and its values are short.
use sandal.Prelude.{
  Bool, true, not, ◌&&◌, ◌%◌, length-append, ◌≡◌, refl, inl, inr, ℕ, zero, suc, ◌/◌, ◌<◌, List, [],
  ◌∷◌, ◌++◌, ltb, ◌==◌, Bool-cases, All, length, arith,
}
use sandal.Prelude.Words.{Bytes}
use sandal.Prelude.Text.{codes}
use sandal.Kvm.DeviceTree.Reader.{Item, begins, ends, property}
use sandal.Kvm.DeviceTree.Encoding.{HasNoZero, IsItem}
use sandal.Kvm.DeviceTree.Machine.{VirtioDevice, BootConfig, digit, digits}
use sandal.Kvm.DeviceTree.Board.{
  Node, Nodes, node, ◌and◌, items, all_items, text, memory, chosen, psci, cpu, cpus_from, clock,
  gic, timer, uart, rtc, virtio, virtio_all, machine,
}

-- Tests of what IsItem says, which compute on the items that are known.
abbrev no_zero : Bytes → Bool
no_zero [] = true
no_zero (b ∷ bs) = not (b == 0) && no_zero bs

abbrev valid_item : Item → Bool
valid_item (begins name) = no_zero name
valid_item ends = true
valid_item (property name value) = no_zero name && ltb (length value) 4294967296

abbrev all_valid : List Item → Bool
all_valid [] = true
all_valid (i ∷ is) = valid_item i && all_valid is

no_zero-HasNoZero : (b : Bytes) → no_zero b ≡ true → HasNoZero b
no_zero-HasNoZero [] e = tt
no_zero-HasNoZero (x ∷ b) e = (ground arith, no_zero-HasNoZero b (ground arith))

valid_item-IsItem : (i : Item) → valid_item i ≡ true → IsItem i
valid_item-IsItem (begins name) e = no_zero-HasNoZero name e
valid_item-IsItem ends e = tt
valid_item-IsItem (property name value) e = (no_zero-HasNoZero name (ground arith), ground arith)

all_valid_lem : (is : List Item) → all_valid is ≡ true → All IsItem is
all_valid_lem [] e = tt
all_valid_lem (i ∷ is) e = (valid_item-IsItem i (ground arith), all_valid_lem is (ground arith))

all_valid-append :
    (xs ys : List Item) → all_valid xs ≡ true → all_valid ys ≡ true → all_valid (xs ++ ys) ≡ true
all_valid-append [] ys h k = k
all_valid-append (x ∷ xs) ys h k = ground (arith, all_valid-append xs ys)

digits-no_zero :
    (base fuel n : ℕ) (done : Bytes)
    → no_zero done ≡ true
    → no_zero (digits base fuel n done) ≡ true
unfolding digits
digits-no_zero base zero n done h = h
digits-no_zero base (suc fuel) n done h =
    let more : no_zero (digit (n % base) ∷ done) ≡ true = ground arith in
    elim (Bool-cases (n / base == 0)) [
      | inl e ↦ rw e more
      | inr e ↦ rw e (digits-no_zero base fuel (n / base) (digit (n % base) ∷ done) more)
    ]

text_fits : (s : Bytes) → length s < 4294967295 → ltb (length (text s)) 4294967296 ≡ true
text_fits s l = ground (arith, length-append s (0 ∷ []))

and-all_valid :
    (n : Node) (ns : Nodes)
    → all_valid (items n) ≡ true
    → all_valid (all_items ns) ≡ true
    → all_valid (all_items (n and ns)) ≡ true
unfolding items all_items
and-all_valid n ns h k = all_valid-append (items n) (all_items ns) h k

node-all_valid :
    (name : Bytes) (properties : List Item) (below : Nodes)
    → no_zero name ≡ true
    → all_valid properties ≡ true
    → all_valid (all_items below) ≡ true
    → all_valid (items (node name properties below)) ≡ true
unfolding items
node-all_valid name properties below e h k =
    let rest : all_valid (properties ++ (all_items below ++ ends ∷ [])) ≡ true =
      all_valid-append properties _ h (all_valid-append (all_items below) (ends ∷ []) k refl) in
    rw (e, rest) refl

cpu-all_valid :
    (compat : Bytes) (i : ℕ) → length compat < 4294967295 → all_valid (items (cpu compat i)) ≡ true
unfolding items all_items
cpu-all_valid compat i l = rw (digits-no_zero 10 20 i [] refl, text_fits compat l) refl

cpus_from-all_valid :
    (compat : Bytes) (i n : ℕ)
    → length compat < 4294967295
    → all_valid (all_items (cpus_from compat i n)) ≡ true
cpus_from-all_valid compat i zero l = unfold all_items in refl
cpus_from-all_valid compat i (suc n) l =
    and-all_valid (cpu compat i) _ (cpu-all_valid compat i l)
      (cpus_from-all_valid compat (suc i) n l)

virtio-all_valid : (v : VirtioDevice) → all_valid (items (virtio v)) ≡ true
unfolding items all_items
virtio-all_valid v = rw (digits-no_zero 16 16 v.base_addr [] refl) refl

virtio_all-all_valid : (vs : List VirtioDevice) → all_valid (all_items (virtio_all vs)) ≡ true
virtio_all-all_valid [] = unfold all_items in refl
virtio_all-all_valid (v ∷ vs) =
    and-all_valid (virtio v) _ (virtio-all_valid v) (virtio_all-all_valid vs)

chosen-all_valid :
    (boot : BootConfig)
    → length boot.command_line < 4294967295
    → all_valid (items (chosen boot)) ≡ true
unfolding items all_items
chosen-all_valid boot l = elim (Bool-cases (ltb 0 boot.initrd_size)) [
  | inl e ↦ rw (e, text_fits boot.command_line l) refl
  | inr e ↦ rw (e, text_fits boot.command_line l) refl
]

gic-all_valid : (version : ℕ) → all_valid (items (gic version)) ≡ true
unfolding items all_items
gic-all_valid version = elim (Bool-cases (version == 3)) [ inl e ↦ rw e refl | inr e ↦ rw e refl ]

-- The nodes that are the same for every guest, and the memory.
memory-all_valid : (m : ℕ) → all_valid (items (memory m)) ≡ true
unfolding items all_items
memory-all_valid m = refl

fixed-all_valid :
    (all_valid (items psci) ≡ true)
    × (all_valid (items clock) ≡ true)
    × (all_valid (items timer) ≡ true)
    × (all_valid (items uart) ≡ true)
    × (all_valid (items rtc) ≡ true)
unfolding items all_items
fixed-all_valid = (refl, refl, refl, refl, refl)

-- Every item of the machine is one that the builder can write.
pub machine-IsItem :
    (version : ℕ) (boot : BootConfig) (compat : Bytes)
    → length boot.command_line < 4294967295
    → length compat < 4294967295
    → All IsItem (items (machine version boot compat))
machine-IsItem version boot compat l k =
    let (psci_ok, clock_ok, timer_ok, uart_ok, rtc_ok) = fixed-all_valid in
    let cpus_ok =
      node-all_valid (codes "cpus") _ (cpus_from compat 0 boot.num_cpus) refl refl
        (cpus_from-all_valid compat 0 boot.num_cpus k) in
    all_valid_lem (items (machine version boot compat)) (
      node-all_valid [] _ _ refl refl (
        and-all_valid _ _ (memory-all_valid boot.mem_size) (
          and-all_valid _ _ (chosen-all_valid boot l) (
            and-all_valid _ _ psci_ok (
              and-all_valid _ _ cpus_ok (
                and-all_valid _ _ clock_ok (
                  and-all_valid _ _ (gic-all_valid version) (
                    and-all_valid _ _ timer_ok (
                      and-all_valid _ _ uart_ok (
                        and-all_valid _ _ rtc_ok
                          (virtio_all-all_valid boot.virtio_devices)))))))))))
