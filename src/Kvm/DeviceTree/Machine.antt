-- ===== src/Kvm/DeviceTree/Machine.antt =====
-- The machine that an arm64 guest is told of: buildDTB of pkg/vm/kvm/vcpu_arm64.go, and the places
-- that pkg/vm/kvm/vm.go gives to the virtio devices. The methods of the builder that a function
-- calls in order are a list.
use sandal.Prelude.{ℕ, zero, suc, ◌+◌, ◌*◌, ◌/◌, ◌%◌, List, [], ◌∷◌, ◌++◌, ltb, ◌==◌, if◌then◌else◌}
use sandal.Prelude.Words.{Bytes, u32, u64}
use sandal.Prelude.Text.{codes}
use sandal.Kvm.DeviceTree.{
  FdtBuilder, new_fdt_builder, begin_node, end_node, prop_u32, prop_u64, prop_string, prop_empty,
  prop_string_list, prop_u32_array, finish,
}

-- What the tree is built from of a virtioMMIODev.
pub record VirtioDevice : Type 0 where
  pub base_addr : ℕ
  pub irq_num : ℕ

-- bootConfig, without the kernel's address, which the tree does not hold.
pub record BootConfig : Type 0 where
  pub initrd_addr : ℕ
  pub initrd_size : ℕ
  pub mem_size : ℕ
  pub command_line : Bytes
  pub num_cpus : ℕ
  pub virtio_devices : List VirtioDevice

-- The device that is appended when `dev_idx` others are there.
abbrev pub new_device : ℕ → VirtioDevice
new_device dev_idx = record {
  base_addr = u64 (0x0a000000 + dev_idx * 512);
  irq_num = u32 (16 + dev_idx);
}

-- The devices from the one with the index on.
unfoldable pub devices_from : ℕ → ℕ → List VirtioDevice
devices_from dev_idx zero = []
devices_from dev_idx (suc n) = new_device dev_idx ∷ devices_from (suc dev_idx) n

-- A number in a base up to 16, as %d and %x print it: a digit for each unit of fuel, and none is
-- missing of a number below the base to the fuel.
abbrev pub digit : ℕ → ℕ
digit d = if ltb d 10 then 48 + d else 87 + d

unfoldable pub digits : (base fuel n : ℕ) → Bytes → Bytes
digits base zero n done = done
digits base (suc fuel) n done =
    let rest = digits base fuel (n / base) (digit (n % base) ∷ done) in
    if n / base == 0 then digit (n % base) ∷ done else rest

abbrev pub hex : ℕ → Bytes
hex n = digits 16 16 n []

abbrev pub decimal : ℕ → Bytes
decimal n = digits 10 20 n []

abbrev pub calls : List (FdtBuilder → FdtBuilder) → FdtBuilder → FdtBuilder
calls [] f = f
calls (c ∷ cs) f = calls cs (c f)

unfoldable pub root_properties : FdtBuilder → FdtBuilder
root_properties = calls (
    prop_string (codes "compatible") (codes "linux,dummy-virt")
    ∷ prop_u32 (codes "#address-cells") 2
    ∷ prop_u32 (codes "#size-cells") 2
    ∷ prop_u32 (codes "interrupt-parent") 1
    ∷ [])

unfoldable pub memory_node : ℕ → FdtBuilder → FdtBuilder
memory_node mem_size = calls (
    begin_node (codes "memory@" ++ hex 0x40000000)
    ∷ prop_string (codes "device_type") (codes "memory")
    ∷ prop_u32_array (codes "reg")
        (0 ∷ 0x40000000 ∷ u32 (mem_size / 4294967296) ∷ u32 mem_size ∷ [])
    ∷ end_node
    ∷ [])

unfoldable pub initrd_properties : ℕ → ℕ → FdtBuilder → FdtBuilder
initrd_properties addr size f =
    if ltb 0 size
    then prop_u64 (codes "linux,initrd-end") (u64 (addr + size))
        (prop_u64 (codes "linux,initrd-start") addr f)
    else f

unfoldable pub chosen_node : BootConfig → FdtBuilder → FdtBuilder
chosen_node boot = calls (
    begin_node (codes "chosen")
    ∷ prop_string (codes "bootargs") boot.command_line
    ∷ prop_string (codes "stdout-path") (codes "/pl011@9000000")
    ∷ initrd_properties boot.initrd_addr boot.initrd_size
    ∷ end_node
    ∷ [])

unfoldable pub psci_node : FdtBuilder → FdtBuilder
psci_node = calls (
    begin_node (codes "psci")
    ∷ prop_string (codes "compatible") (codes "arm,psci-0.2")
    ∷ prop_string (codes "method") (codes "hvc")
    ∷ end_node
    ∷ [])

unfoldable pub cpu_node : Bytes → ℕ → FdtBuilder → FdtBuilder
cpu_node compat i = calls (
    begin_node (codes "cpu@" ++ decimal i)
    ∷ prop_string (codes "device_type") (codes "cpu")
    ∷ prop_string (codes "compatible") compat
    ∷ prop_u32 (codes "reg") (u32 i)
    ∷ prop_string (codes "enable-method") (codes "psci")
    ∷ end_node
    ∷ [])

-- The loop over the CPUs, from the `i`th on.
unfoldable pub cpu_nodes : Bytes → ℕ → ℕ → FdtBuilder → FdtBuilder
cpu_nodes compat i zero f = f
cpu_nodes compat i (suc n) f = cpu_nodes compat (suc i) n (cpu_node compat i f)

unfoldable pub cpus_node : Bytes → ℕ → FdtBuilder → FdtBuilder
cpus_node compat num_cpus = calls (
    begin_node (codes "cpus")
    ∷ prop_u32 (codes "#address-cells") 1
    ∷ prop_u32 (codes "#size-cells") 0
    ∷ cpu_nodes compat 0 num_cpus
    ∷ end_node
    ∷ [])

unfoldable pub clock_node : FdtBuilder → FdtBuilder
clock_node = calls (
    begin_node (codes "apb-pclk")
    ∷ prop_string (codes "compatible") (codes "fixed-clock")
    ∷ prop_u32 (codes "#clock-cells") 0
    ∷ prop_u32 (codes "clock-frequency") 24000000
    ∷ prop_u32 (codes "phandle") 2
    ∷ end_node
    ∷ [])

-- The branches of the version of the GIC: 3, and any other.
unfoldable pub gic_v3_properties : FdtBuilder → FdtBuilder
gic_v3_properties = calls (
    prop_string (codes "compatible") (codes "arm,gic-v3")
    ∷ prop_u32 (codes "#interrupt-cells") 3
    ∷ prop_empty (codes "interrupt-controller")
    ∷ prop_u32 (codes "#address-cells") 2
    ∷ prop_u32 (codes "#size-cells") 2
    ∷ prop_empty (codes "ranges")
    ∷ prop_u32_array (codes "reg")
        (0 ∷ 0x08000000 ∷ 0 ∷ 0x10000 ∷ 0 ∷ 0x080A0000 ∷ 0 ∷ 0x00F60000 ∷ [])
    ∷ [])

unfoldable pub gic_v2_properties : FdtBuilder → FdtBuilder
gic_v2_properties = calls (
    prop_string (codes "compatible") (codes "arm,cortex-a15-gic")
    ∷ prop_u32 (codes "#interrupt-cells") 3
    ∷ prop_empty (codes "interrupt-controller")
    ∷ prop_u32 (codes "#address-cells") 2
    ∷ prop_u32 (codes "#size-cells") 2
    ∷ prop_empty (codes "ranges")
    ∷ prop_u32_array (codes "reg")
        (0 ∷ 0x08000000 ∷ 0 ∷ 0x10000 ∷ 0 ∷ 0x08010000 ∷ 0 ∷ 0x10000 ∷ [])
    ∷ [])

unfoldable pub gic_node : ℕ → FdtBuilder → FdtBuilder
gic_node version = calls (
    begin_node (codes "intc@" ++ hex 0x08000000)
    ∷ (if version == 3 then gic_v3_properties else gic_v2_properties)
    ∷ prop_u32 (codes "phandle") 1
    ∷ end_node
    ∷ [])

unfoldable pub timer_node : FdtBuilder → FdtBuilder
timer_node = calls (
    begin_node (codes "timer")
    ∷ prop_string_list (codes "compatible") (codes "arm,armv8-timer" ∷ codes "arm,armv7-timer" ∷ [])
    ∷ prop_empty (codes "always-on")
    ∷ prop_u32_array (codes "interrupts") (1 ∷ 13 ∷ 4 ∷ 1 ∷ 14 ∷ 4 ∷ 1 ∷ 11 ∷ 4 ∷ 1 ∷ 10 ∷ 4 ∷ [])
    ∷ end_node
    ∷ [])

unfoldable pub uart_node : FdtBuilder → FdtBuilder
uart_node = calls (
    begin_node (codes "pl011@9000000")
    ∷ prop_string_list (codes "compatible") (codes "arm,pl011" ∷ codes "arm,primecell" ∷ [])
    ∷ prop_u32_array (codes "reg") (0 ∷ 0x09000000 ∷ 0 ∷ 0x1000 ∷ [])
    ∷ prop_u32_array (codes "interrupts") (0 ∷ 1 ∷ 4 ∷ [])
    ∷ prop_u32 (codes "interrupt-parent") 1
    ∷ prop_string_list (codes "clock-names") (codes "uartclk" ∷ codes "apb_pclk" ∷ [])
    ∷ prop_u32_array (codes "clocks") (2 ∷ 2 ∷ [])
    ∷ end_node
    ∷ [])

unfoldable pub rtc_node : FdtBuilder → FdtBuilder
rtc_node = calls (
    begin_node (codes "pl031@9010000")
    ∷ prop_string_list (codes "compatible") (codes "arm,pl031" ∷ codes "arm,primecell" ∷ [])
    ∷ prop_u32_array (codes "reg") (0 ∷ 0x09010000 ∷ 0 ∷ 0x1000 ∷ [])
    ∷ prop_u32_array (codes "interrupts") (0 ∷ 2 ∷ 4 ∷ [])
    ∷ prop_u32 (codes "interrupt-parent") 1
    ∷ prop_string_list (codes "clock-names") (codes "apb_pclk" ∷ [])
    ∷ prop_u32_array (codes "clocks") (2 ∷ [])
    ∷ end_node
    ∷ [])

unfoldable pub virtio_node : ℕ → VirtioDevice → FdtBuilder → FdtBuilder
virtio_node i v = calls (
    begin_node (codes "virtio_mmio@" ++ hex v.base_addr)
    ∷ prop_string (codes "compatible") (codes "virtio,mmio")
    ∷ prop_u32_array (codes "reg") (u32 (v.base_addr / 4294967296) ∷ u32 v.base_addr ∷ 0 ∷ 512 ∷ [])
    ∷ prop_u32_array (codes "interrupts") (0 ∷ u32 (16 + i) ∷ 1 ∷ [])
    ∷ prop_u32 (codes "interrupt-parent") 1
    ∷ prop_empty (codes "dma-coherent")
    ∷ end_node
    ∷ [])

-- The loop over the devices, from the `i`th on.
unfoldable pub virtio_nodes : ℕ → List VirtioDevice → FdtBuilder → FdtBuilder
virtio_nodes i [] f = f
virtio_nodes i (v ∷ devices) f = virtio_nodes (suc i) devices (virtio_node i v f)

-- buildDTB, with the version of the GIC.
unfoldable pub build_dtb : ℕ → BootConfig → Bytes → Bytes
build_dtb gic_version boot cpu_compat = finish (
    calls
      (begin_node []
        ∷ root_properties
        ∷ memory_node boot.mem_size
        ∷ chosen_node boot
        ∷ psci_node
        ∷ cpus_node cpu_compat boot.num_cpus
        ∷ clock_node
        ∷ gic_node gic_version
        ∷ timer_node
        ∷ uart_node
        ∷ rtc_node
        ∷ virtio_nodes 0 boot.virtio_devices
        ∷ end_node
        ∷ [])
      new_fdt_builder)
