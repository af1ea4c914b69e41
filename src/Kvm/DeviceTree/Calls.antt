-- ===== src/Kvm/DeviceTree/Calls.antt =====
-- What the calls of buildDTB (pkg/vm/kvm/vcpu_arm64.go) write: node by node, the machine.
use sandal.Prelude.{
  ◌≡◌, refl, ap, sym, ◌∙◌, inl, inr, ℕ, zero, suc, ◌+◌, ◌/◌, List, [], ◌∷◌, ◌++◌, ltb, ◌==◌,
  Bool-cases, arith,
}
use sandal.Prelude.Words.{Bytes, be32, u32, u8}
use sandal.Prelude.Text.{codes}
use sandal.Kvm.DeviceTree.{
  FdtBuilder, begin_node, end_node, prop_raw, prop_u32, prop_u64, prop_string, prop_empty,
  prop_string_list, prop_u32_array, be64, all_be32,
}
use sandal.Kvm.DeviceTree.Reader.{Item, ends, property, put, put_all}
use sandal.Kvm.DeviceTree.Machine.{
  BootConfig, new_device, devices_from, digits, hex, calls, memory_node, initrd_properties,
  chosen_node, psci_node, cpu_node, cpu_nodes, cpus_node, clock_node, gic_v3_properties,
  gic_v2_properties, gic_node, timer_node, uart_node, rtc_node, virtio_node, virtio_nodes,
}
use sandal.Kvm.DeviceTree.Board.{
  Node, Nodes, node, ◌and◌, items, all_items, memory, chosen, psci, cpu, cpus_from, cpus, clock,
  gic, timer, uart, rtc, virtio, virtio_all,
}

be32-u32 : (v : ℕ) → be32 (u32 v) ≡ be32 v
be32-u32 v =
    let a : u8 (u32 v / 16777216) ≡ u8 (v / 16777216) = omega arith in
    let b : u8 (u32 v / 65536) ≡ u8 (v / 65536) = omega arith in
    let c : u8 (u32 v / 256) ≡ u8 (v / 256) = omega arith in
    let d : u8 (u32 v) ≡ u8 v = omega arith in rw (a, b, c, d) refl

-- Two cells that hold a number of 64 bits.
two_cells :
    (v : ℕ) (rest : List ℕ)
    → all_be32 (u32 (v / 4294967296) ∷ u32 v ∷ rest) ≡ be64 v ++ all_be32 rest
two_cells v rest =
    ap (λ b. b ++ (be32 (u32 v) ++ all_be32 rest)) (be32-u32 (v / 4294967296))
    ∙ ap (λ b. be32 (v / 4294967296) ++ (b ++ all_be32 rest)) (be32-u32 v)

put_all-append :
    (is js : List Item) (f : FdtBuilder) → put_all (is ++ js) f ≡ put_all js (put_all is f)
put_all-append [] js f = refl
put_all-append (i ∷ is) js f = put_all-append is js (put i f)

-- The calls write the nodes.
abbrev Writes : (FdtBuilder → FdtBuilder) → Nodes → Type 0
Writes c ns = (f : FdtBuilder) → c f ≡ put_all (all_items ns) f

-- The calls in order write the nodes in order.
pub record AllWritten (cs : List (FdtBuilder → FdtBuilder)) (ns : Nodes) : Type 0 where
  pub writes : Writes (calls cs) ns

calls-AllWritten :
    {c : FdtBuilder → FdtBuilder} {cs : List (FdtBuilder → FdtBuilder)} {n : Node} {ns : Nodes}
    → ((f : FdtBuilder) → c f ≡ put_all (items n) f)
    → AllWritten cs ns
    → AllWritten (c ∷ cs) (n and ns)
unfolding items all_items
calls-AllWritten {c} {cs} {n} {ns} h t = record {
  writes = λ f.
      ap (calls cs) (h f)
      ∙ t.writes (put_all (items n) f)
      ∙ sym (put_all-append (items n) (all_items ns) f);
}

-- A node with the nodes below it written by a function.
pub put_all-node :
    (name : Bytes) (properties : List Item) (below : Nodes) (f : FdtBuilder)
    → put_all (items (node name properties below)) f
      ≡ end_node (put_all (all_items below) (put_all properties (begin_node name f)))
unfolding items
put_all-node name properties below f =
    put_all-append properties (all_items below ++ ends ∷ []) (begin_node name f)
    ∙ put_all-append (all_items below) (ends ∷ []) (put_all properties (begin_node name f))

memory_node_lem : (m : ℕ) (f : FdtBuilder) → memory_node m f ≡ put_all (items (memory m)) f
unfolding items all_items memory_node prop_string prop_u32_array digits
memory_node_lem m f =
    ap
      (λ b. end_node (
        prop_raw (codes "reg") (be32 0 ++ (be32 0x40000000 ++ b)) (
          prop_string (codes "device_type") (codes "memory")
            (begin_node (codes "memory@40000000") f))))
      (two_cells m [])

chosen_node_lem : (b : BootConfig) (f : FdtBuilder) → chosen_node b f ≡ put_all (items (chosen b)) f
unfolding items all_items chosen_node initrd_properties prop_string prop_u64
chosen_node_lem b f = elim (Bool-cases (ltb 0 b.initrd_size)) [
  | inl e ↦ rw e refl
  | inr e ↦ rw e refl
]

psci_node_lem : (f : FdtBuilder) → psci_node f ≡ put_all (items psci) f
unfolding items all_items psci_node prop_string
psci_node_lem f = refl

cpu_node_lem :
    (compat : Bytes) (i : ℕ) (f : FdtBuilder)
    → cpu_node compat i f ≡ put_all (items (cpu compat i)) f
unfolding items all_items cpu_node prop_string prop_u32
cpu_node_lem compat i f = rw (be32-u32 i) refl

cpu_nodes_lem : (compat : Bytes) (i n : ℕ) → Writes (cpu_nodes compat i n) (cpus_from compat i n)
unfolding all_items cpu_nodes
cpu_nodes_lem compat i zero f = refl
cpu_nodes_lem compat i (suc n) f =
    ap (cpu_nodes compat (suc i) n) (cpu_node_lem compat i f)
    ∙ cpu_nodes_lem compat (suc i) n (put_all (items (cpu compat i)) f)
    ∙ sym (put_all-append (items (cpu compat i)) (all_items (cpus_from compat (suc i) n)) f)

cpus_node_lem :
    (compat : Bytes) (n : ℕ) (f : FdtBuilder)
    → cpus_node compat n f ≡ put_all (items (cpus compat n)) f
unfolding cpus_node prop_u32
cpus_node_lem compat n f =
    let heads : List Item =
      property (codes "#address-cells") (be32 1) ∷ property (codes "#size-cells") (be32 0) ∷ [] in
    ap end_node (cpu_nodes_lem compat 0 n (put_all heads (begin_node (codes "cpus") f)))
    ∙ sym (put_all-node (codes "cpus") heads (cpus_from compat 0 n) f)

clock_node_lem : (f : FdtBuilder) → clock_node f ≡ put_all (items clock) f
unfolding items all_items clock_node prop_string prop_u32
clock_node_lem f = refl

gic_node_lem : (version : ℕ) (f : FdtBuilder) → gic_node version f ≡ put_all (items (gic version)) f
unfolding items all_items gic_node gic_v3_properties gic_v2_properties prop_string prop_u32
    prop_empty prop_u32_array digits
gic_node_lem version f = elim (Bool-cases (version == 3)) [ inl e ↦ rw e refl | inr e ↦ rw e refl ]

timer_node_lem : (f : FdtBuilder) → timer_node f ≡ put_all (items timer) f
unfolding items all_items timer_node prop_string_list prop_empty prop_u32_array
timer_node_lem f = refl

uart_node_lem : (f : FdtBuilder) → uart_node f ≡ put_all (items uart) f
unfolding items all_items uart_node prop_string_list prop_u32_array prop_u32
uart_node_lem f = refl

rtc_node_lem : (f : FdtBuilder) → rtc_node f ≡ put_all (items rtc) f
unfolding items all_items rtc_node prop_string_list prop_u32_array prop_u32
rtc_node_lem f = refl

-- The devices of vm.go, whose lines are those that the tree gives by their place.
virtio_node_lem :
    (i : ℕ) (f : FdtBuilder)
    → virtio_node i (new_device i) f ≡ put_all (items (virtio (new_device i))) f
unfolding items all_items virtio_node prop_string prop_u32_array prop_u32 prop_empty
virtio_node_lem i f =
    ap
      (λ b. end_node (
        prop_raw (codes "dma-coherent") [] (
          prop_raw (codes "interrupt-parent") (be32 1) (
            prop_raw (codes "interrupts") (all_be32 (0 ∷ u32 (16 + i) ∷ 1 ∷ [])) (
              prop_raw (codes "reg") b (
                prop_string (codes "compatible") (codes "virtio,mmio")
                  (begin_node (codes "virtio_mmio@" ++ hex (new_device i).base_addr) f)))))))
      (two_cells (new_device i).base_addr (0 ∷ 512 ∷ []))

virtio_nodes_lem :
    (i n : ℕ) → Writes (virtio_nodes i (devices_from i n)) (virtio_all (devices_from i n))
unfolding all_items virtio_nodes devices_from
virtio_nodes_lem i zero f = refl
virtio_nodes_lem i (suc n) f =
    ap (virtio_nodes (suc i) (devices_from (suc i) n)) (virtio_node_lem i f)
    ∙ virtio_nodes_lem (suc i) n (put_all (items (virtio (new_device i))) f)
    ∙ sym (
        put_all-append (items (virtio (new_device i)))
          (all_items (virtio_all (devices_from (suc i) n))) f)

-- The calls of buildDTB below the root.
pub below_root :
    (version n : ℕ) (boot : BootConfig) (compat : Bytes)
    → boot.virtio_devices ≡ devices_from 0 n
    → AllWritten
        ((memory_node boot.mem_size
          ∷ chosen_node boot
          ∷ psci_node
          ∷ cpus_node compat boot.num_cpus
          ∷ clock_node
          ∷ gic_node version
          ∷ timer_node
          ∷ uart_node
          ∷ rtc_node
          ∷ virtio_nodes 0 boot.virtio_devices
          ∷ []))
        (memory boot.mem_size
          and chosen boot
          and psci
          and cpus compat boot.num_cpus
          and clock
          and gic version
          and timer
          and uart
          and rtc
          and virtio_all boot.virtio_devices)
below_root version n boot compat e =
    let devices : Writes (virtio_nodes 0 boot.virtio_devices) (virtio_all boot.virtio_devices) =
      rw e (virtio_nodes_lem 0 n) in
    calls-AllWritten (memory_node_lem boot.mem_size) (
      calls-AllWritten (chosen_node_lem boot) (
        calls-AllWritten psci_node_lem (
          calls-AllWritten (cpus_node_lem compat boot.num_cpus) (
            calls-AllWritten clock_node_lem (
              calls-AllWritten (gic_node_lem version) (
                calls-AllWritten timer_node_lem (
                  calls-AllWritten uart_node_lem
                    (calls-AllWritten rtc_node_lem (record { writes = devices })))))))))
