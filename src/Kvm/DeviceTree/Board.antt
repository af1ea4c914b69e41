-- ===== src/Kvm/DeviceTree/Board.antt =====
-- The nodes of the machine of pkg/vm/kvm/vcpu_arm64.go as a tree, and the items that a tree is
-- written as.
use sandal.Prelude.{ℕ, zero, suc, ◌+◌, List, [], ◌∷◌, ◌++◌, ltb, ◌==◌, if◌then◌else◌}
use sandal.Prelude.Words.{Bytes, be32, u64}
use sandal.Prelude.Text.{codes}
use sandal.Kvm.DeviceTree.{be64, all_be32}
use sandal.Kvm.DeviceTree.Reader.{Item, begins, ends, property}
use sandal.Kvm.DeviceTree.Machine.{VirtioDevice, BootConfig, hex, decimal}

-- A node has a name, properties and nodes below it.
mutual
  pub data Node : Type 0 where
    node : Bytes → List Item → Nodes → Node

  pub data Nodes : Type 0 where
    leaf : Nodes
    ◌and◌ : Node → Nodes → Nodes

infixr 5 ◌and◌
unfoldable mutual
  pub items : Node → List Item
  items (node name properties below) = begins name ∷ (properties ++ (all_items below ++ ends ∷ []))

  pub all_items : Nodes → List Item
  all_items leaf = []
  all_items (n and ns) = items n ++ all_items ns

-- Values: texts with their zero, and cells of 32 and 64 bits.
abbrev pub text : Bytes → Bytes
text s = s ++ 0 ∷ []

abbrev cells : List ℕ → Bytes
cells = all_be32

abbrev initrd_items : ℕ → ℕ → List Item
initrd_items addr size =
    if ltb 0 size
    then property (codes "linux,initrd-start") (be64 addr)
      ∷ property (codes "linux,initrd-end") (be64 (u64 (addr + size)))
      ∷ []
    else []

-- The guest's memory begins at 1 GiB and has the configured size.
abbrev pub memory : ℕ → Node
memory mem_size =
    node (codes "memory@40000000")
      (property (codes "device_type") (text (codes "memory"))
        ∷ property (codes "reg") (be64 0x40000000 ++ be64 mem_size)
        ∷ [])
      leaf

abbrev pub chosen : BootConfig → Node
chosen boot =
    node (codes "chosen")
      (property (codes "bootargs") (text boot.command_line)
        ∷ property (codes "stdout-path") (text (codes "/pl011@9000000"))
        ∷ initrd_items boot.initrd_addr boot.initrd_size)
      leaf

abbrev pub psci : Node
psci =
    node (codes "psci")
      (property (codes "compatible") (text (codes "arm,psci-0.2"))
        ∷ property (codes "method") (text (codes "hvc"))
        ∷ [])
      leaf

abbrev pub cpu : Bytes → ℕ → Node
cpu compat i =
    node (codes "cpu@" ++ decimal i)
      (property (codes "device_type") (text (codes "cpu"))
        ∷ property (codes "compatible") (text compat)
        ∷ property (codes "reg") (be32 i)
        ∷ property (codes "enable-method") (text (codes "psci"))
        ∷ [])
      leaf

abbrev pub cpus_from : Bytes → ℕ → ℕ → Nodes
cpus_from compat i zero = leaf
cpus_from compat i (suc n) = cpu compat i and cpus_from compat (suc i) n

abbrev pub cpus : Bytes → ℕ → Node
cpus compat n =
    node (codes "cpus")
      (property (codes "#address-cells") (be32 1) ∷ property (codes "#size-cells") (be32 0) ∷ [])
      (cpus_from compat 0 n)

abbrev pub clock : Node
clock =
    node (codes "apb-pclk")
      (property (codes "compatible") (text (codes "fixed-clock"))
        ∷ property (codes "#clock-cells") (be32 0)
        ∷ property (codes "clock-frequency") (be32 24000000)
        ∷ property (codes "phandle") (be32 2)
        ∷ [])
      leaf

-- The interrupt controller: its two kinds differ in the name and in the second region.
abbrev pub gic : ℕ → Node
gic version =
    node (codes "intc@8000000")
      (property (codes "compatible")
          (text (if version == 3 then codes "arm,gic-v3" else codes "arm,cortex-a15-gic"))
        ∷ property (codes "#interrupt-cells") (be32 3)
        ∷ property (codes "interrupt-controller") []
        ∷ property (codes "#address-cells") (be32 2)
        ∷ property (codes "#size-cells") (be32 2)
        ∷ property (codes "ranges") []
        ∷ property (codes "reg") (
            be64 0x08000000
            ++ (be64 0x10000
                ++ (if version == 3
                    then be64 0x080A0000 ++ be64 0x00F60000
                    else be64 0x08010000 ++ be64 0x10000)))
        ∷ property (codes "phandle") (be32 1)
        ∷ [])
      leaf

abbrev pub timer : Node
timer =
    node (codes "timer")
      (property (codes "compatible")
          (text (codes "arm,armv8-timer") ++ text (codes "arm,armv7-timer"))
        ∷ property (codes "always-on") []
        ∷ property (codes "interrupts")
            (cells (1 ∷ 13 ∷ 4 ∷ 1 ∷ 14 ∷ 4 ∷ 1 ∷ 11 ∷ 4 ∷ 1 ∷ 10 ∷ 4 ∷ []))
        ∷ [])
      leaf

-- A device of the board behind the first interrupt lines, with a region of 4 KiB.
abbrev board_device : Bytes → Bytes → ℕ → ℕ → Bytes → Bytes → Node
board_device name compat base line clock_names clocks =
    node name
      (property (codes "compatible") (text compat ++ text (codes "arm,primecell"))
        ∷ property (codes "reg") (be64 base ++ be64 0x1000)
        ∷ property (codes "interrupts") (cells (0 ∷ line ∷ 4 ∷ []))
        ∷ property (codes "interrupt-parent") (be32 1)
        ∷ property (codes "clock-names") clock_names
        ∷ property (codes "clocks") clocks
        ∷ [])
      leaf

abbrev pub uart : Node
uart =
    board_device (codes "pl011@9000000") (codes "arm,pl011") 0x09000000 1
      (text (codes "uartclk") ++ text (codes "apb_pclk")) (cells (2 ∷ 2 ∷ []))

abbrev pub rtc : Node
rtc =
    board_device (codes "pl031@9010000") (codes "arm,pl031") 0x09010000 2 (text (codes "apb_pclk"))
      (cells (2 ∷ []))

-- A virtio device at its base address, with the interrupt line that it raises.
abbrev pub virtio : VirtioDevice → Node
virtio v =
    node (codes "virtio_mmio@" ++ hex v.base_addr)
      (property (codes "compatible") (text (codes "virtio,mmio"))
        ∷ property (codes "reg") (be64 v.base_addr ++ be64 512)
        ∷ property (codes "interrupts") (cells (0 ∷ v.irq_num ∷ 1 ∷ []))
        ∷ property (codes "interrupt-parent") (be32 1)
        ∷ property (codes "dma-coherent") []
        ∷ [])
      leaf

abbrev pub virtio_all : List VirtioDevice → Nodes
virtio_all [] = leaf
virtio_all (v ∷ devices) = virtio v and virtio_all devices

abbrev pub machine : ℕ → BootConfig → Bytes → Node
machine gic_version boot cpu_compat =
    node []
      (property (codes "compatible") (text (codes "linux,dummy-virt"))
        ∷ property (codes "#address-cells") (be32 2)
        ∷ property (codes "#size-cells") (be32 2)
        ∷ property (codes "interrupt-parent") (be32 1)
        ∷ [])
      (memory boot.mem_size
        and chosen boot
        and psci
        and cpus cpu_compat boot.num_cpus
        and clock
        and gic gic_version
        and timer
        and uart
        and rtc
        and virtio_all boot.virtio_devices)
