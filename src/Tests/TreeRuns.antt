-- ===== src/Tests/TreeRuns.antt =====
-- Runs of the device tree builder of pkg/vm/kvm/dtb.go.
use sandal.Prelude.{◌≡◌, refl, some, none, List, [], ◌∷◌, ◌++◌, All, arith, replicate, length, ◌<◌}
use sandal.Prelude.Words.{Bytes, be32}
use sandal.Prelude.Text.{codes, equal}
use sandal.Kvm.DeviceTree.{
  FdtBuilder, new_fdt_builder, offset_of, add_new, add_string, append_u32, pad_to4, begin_node,
  end_node, prop_raw, prop_u32, prop_u64, prop_string, prop_empty, prop_string_list, prop_u32_array,
  prop_reg_u64, prop_reg_pair, finish,
}
use sandal.Kvm.DeviceTree.Reader.{
  Item, begins, ends, property, read_blob, read_blocks, read_items, read_token, read_kind,
}
use sandal.Kvm.DeviceTree.Encoding.{IsItem, HasNoZero}
use sandal.Kvm.DeviceTree.Machine.{
  BootConfig, devices_from, digits, root_properties, memory_node, initrd_properties, chosen_node,
  psci_node, cpu_node, cpu_nodes, cpus_node, clock_node, gic_v3_properties, gic_v2_properties,
  gic_node, timer_node, uart_node, rtc_node, virtio_node, virtio_nodes, build_dtb, decimal, hex,
}
use sandal.Kvm.DeviceTree.Board.{machine, items}
use sandal.Kvm.DeviceTree.Described.{read_blob-build_dtb}

-- A root with two properties of one name, one of them in a node of its own.
abbrev tree : List Item
tree =
    begins []
    ∷ property (codes "reg") (9 ∷ [])
    ∷ begins (codes "a")
    ∷ property (codes "reg") (1 ∷ 2 ∷ 3 ∷ 4 ∷ [])
    ∷ ends
    ∷ ends
    ∷ []

reg-HasNoZero : HasNoZero (codes "reg")
reg-HasNoZero = (λ e. omega arith, (λ e. omega arith, (λ e. omega arith, tt)))

tree-IsItem : All IsItem tree
tree-IsItem = (
  tt,
  (
    (reg-HasNoZero, omega arith),
    ((λ e. omega arith, tt), ((reg-HasNoZero, omega arith), (tt, (tt, tt)))),
  ),
)

-- What the kinds of property write.
abbrev written : (FdtBuilder → FdtBuilder) → Bytes
written f = (f new_fdt_builder).structs

properties :
    (written (prop_u32 (codes "a") 258) ≡ be32 3 ++ (be32 4 ++ (be32 0 ++ (0 ∷ 0 ∷ 1 ∷ 2 ∷ []))))
    × (written (prop_u64 (codes "a") 4294967297)
        ≡ be32 3 ++ (be32 8 ++ (be32 0 ++ (0 ∷ 0 ∷ 0 ∷ 1 ∷ 0 ∷ 0 ∷ 0 ∷ 1 ∷ []))))
    × (written (prop_string (codes "a") (codes "hvc"))
        ≡ be32 3 ++ (be32 4 ++ (be32 0 ++ (codes "hvc" ++ 0 ∷ []))))
    × (written (prop_empty (codes "a")) ≡ be32 3 ++ (be32 0 ++ be32 0))
    × (written (prop_string_list (codes "a") (codes "b" ∷ codes "c" ∷ []))
        ≡ be32 3 ++ (be32 4 ++ (be32 0 ++ (98 ∷ 0 ∷ 99 ∷ 0 ∷ []))))
    × (written (prop_u32_array (codes "a") (1 ∷ 2 ∷ []))
        ≡ be32 3 ++ (be32 8 ++ (be32 0 ++ (be32 1 ++ be32 2))))
    × (written (prop_reg_u64 1 2)
        ≡ be32 3 ++ (be32 16 ++ (be32 0 ++ (be32 0 ++ (be32 1 ++ (be32 0 ++ be32 2))))))
    × ((prop_reg_pair 1 2 3 4 new_fdt_builder).strings ≡ codes "reg" ++ 0 ∷ [])
unfolding prop_u32 prop_u64 prop_string prop_empty prop_string_list prop_u32_array prop_reg_u64
    prop_reg_pair prop_raw append_u32 add_string add_new offset_of pad_to4 equal
properties = (refl, refl, refl, refl, refl, refl, refl, refl)

-- A blob that is cut is not read.
cut_blob : read_blob (be32 0xd00dfeed ++ replicate 36 0) ≡ none
unfolding read_blob read_blocks read_items read_token read_kind
cut_blob = refl

-- A guest with one CPU, an initrd and two devices.
abbrev boot : BootConfig
boot = record {
  initrd_addr = 0x48000000;
  initrd_size = 4096;
  mem_size = 0x20000000;
  command_line = codes "console=ttyAMA0";
  num_cpus = 1;
  virtio_devices = devices_from 0 2;
}

dtb-size : length (build_dtb 3 boot (codes "arm,armv8")) < 4294967296
unfolding build_dtb finish root_properties memory_node initrd_properties chosen_node psci_node
    cpu_node cpu_nodes cpus_node clock_node gic_v3_properties gic_v2_properties gic_node timer_node
    uart_node rtc_node virtio_node virtio_nodes devices_from digits begin_node end_node prop_raw
    prop_u32 prop_u64 prop_string prop_empty prop_string_list prop_u32_array append_u32 add_string
    add_new offset_of pad_to4 equal
dtb-size = omega arith

read_blob-build_dtb_example :
    read_blob (build_dtb 3 boot (codes "arm,armv8"))
    ≡ some (items (machine 3 boot (codes "arm,armv8")))
read_blob-build_dtb_example =
    read_blob-build_dtb 3 2 boot (codes "arm,armv8") refl (omega arith) (omega arith) dtb-size

prints : (hex 0x0a000200 ≡ codes "a000200") × (decimal 107 ≡ codes "107") × (hex 0 ≡ codes "0")
unfolding digits
prints = (refl, refl, refl)
