-- ===== src/Kvm/DeviceTree/Described.antt =====
-- The blob of buildDTB (pkg/vm/kvm/vcpu_arm64.go) describes the machine.
use sandal.Prelude.{◌≡◌, ap, sym, ◌∙◌, ℕ, ◌<◌, List, [], ◌∷◌, some, length}
use sandal.Prelude.Words.{Bytes, be32}
use sandal.Prelude.Text.{codes}
use sandal.Kvm.DeviceTree.{new_fdt_builder, begin_node, end_node, prop_u32, prop_string, finish}
use sandal.Kvm.DeviceTree.Reader.{Item, property, put_all, read_blob}
use sandal.Kvm.DeviceTree.RoundTrip.{read_blob-put_all}
use sandal.Kvm.DeviceTree.Machine.{BootConfig, devices_from, root_properties, build_dtb}
use sandal.Kvm.DeviceTree.Board.{items, text, machine}
use sandal.Kvm.DeviceTree.Calls.{below_root, put_all-node}
use sandal.Kvm.DeviceTree.Names.{machine-IsItem}

-- The blob of buildDTB is read as the machine's tree: the memory of the configured size, the
-- command line, a node for each CPU, the board's devices, and each virtio device at its base
-- address with the interrupt line that it raises, if the devices are those of vm.go, the two texts
-- have lengths below 2^32 - 1 and the blob is below 4 GiB.
pub read_blob-build_dtb :
    (gic_version n : ℕ) (boot : BootConfig) (cpu_compat : Bytes)
    → boot.virtio_devices ≡ devices_from 0 n
    → length boot.command_line < 4294967295
    → length cpu_compat < 4294967295
    → length (build_dtb gic_version boot cpu_compat) < 4294967296
    → read_blob (build_dtb gic_version boot cpu_compat)
      ≡ some (items (machine gic_version boot cpu_compat))
unfolding build_dtb root_properties prop_string prop_u32
read_blob-build_dtb version n boot compat e l k small =
    let heads : List Item =
      property (codes "compatible") (text (codes "linux,dummy-virt"))
      ∷ property (codes "#address-cells") (be32 2)
      ∷ property (codes "#size-cells") (be32 2)
      ∷ property (codes "interrupt-parent") (be32 1)
      ∷ [] in
    let below = (below_root version n boot compat e).writes in
    let root = put_all heads (begin_node [] new_fdt_builder) in
    let same : build_dtb version boot compat
        ≡ finish (put_all (items (machine version boot compat)) new_fdt_builder) =
      ap (λ f. finish (end_node f)) (below root)
      ∙ ap finish (sym (put_all-node [] heads _ new_fdt_builder)) in
    ap read_blob same
    ∙ read_blob-put_all (items (machine version boot compat))
        (machine-IsItem version boot compat l k) (rw same at small)
