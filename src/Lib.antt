-- ===== src/Lib.antt =====
-- sandal runs Linux containers, each in its own namespaces or in a small virtual machine. This
-- library models the parts of it whose behaviour is decided by data: what a virtual machine's
-- devices do at each access of the guest, how network messages and image layers are read and
-- written, and how the command line's port mappings and a Dockerfile are parsed.
--
-- The parts, the files that model them, and the Go code:
-- - Kvm: the devices of the virtual machine monitor, pkg/vm/kvm. A guest access traps into the
--   monitor, which calls the device with the address, the width and KVM's data array (readMMIOVal,
--   writeMMIOVal: Kvm/Mmio). Kvm/Uart is uart.go (PL011 at an MMIO address, 16550 at ports), with
--   the input goroutine's rounds and the guest's accesses as events; the calls of KVM_IRQ_LINE are
--   a list in the state. Kvm/Rtc is rtc.go; the host's clock is an argument. Kvm/Virtio is the
--   register file of virtio.go (handleMMIO, reset), and Kvm/Virtqueue its rings in guest memory
--   (guestSlice, readU16 to writeU64, readDescriptor, ProcessAvailRing, ProcessSingleAvail): guest
--   memory is its size and the byte at each offset, a slice is an offset and a size in it, and a
--   device's handler is a function on the buffers and the memory. Kvm/Block is virtio_blk.go:
--   requests on the contents of their buffers and of the disk's file. Kvm/DeviceTree is dtb.go,
--   the writer of flattened device trees, and Kvm/DeviceTree/Machine is buildDTB of vcpu_arm64.go
--   with the addresses and interrupt lines that vm.go gives to the virtio devices;
--   Kvm/DeviceTree/Reader reads a blob as the device tree specification says, and
--   Kvm/DeviceTree/Board is the machine as a tree.
-- - Dhcp: pkg/lib/dhcp. Dhcp/Options is options.go and Dhcp/Packet is packet.go, the DHCPv4
--   messages; Dhcp/Lease is lease_loop.go, which renews, rebinds and releases a DHCPv6 lease, as
--   rounds on the events that its waits and calls end with.
-- - Dhcp6: DHCPv6 in pkg/lib/dhcp. Dhcp6/Options is options6.go and options6_pd.go, Dhcp6/Packet
--   is packet6.go with the Elapsed Time option of retransmit6.go, Dhcp6/Client what client6.go and
--   client6_pd.go send and read, and Dhcp6/Exchange the loop of retransmit6.go on the events of
--   its socket and its context.
-- - Net: pkg/container/net. Net/Ip is what the code uses of the type net.IP, Net/Allocation is
--   ip-allocation.go with ipIncrement and lastIP of addr.go, and Net/Prefix is renumber/prefix.go,
--   the choice of an IPv6 prefix, with the functions of addr.go on global addresses.
-- - Image: what layers of a container image leave, pkg/lib/container/image. Image/PathIndex is
--   pathindex.go, which lists paths, and Image/Flatten is flatten.go, which merges the layers into
--   one archive; both read the whiteouts of the OCI format. Image/Path is what they use of package
--   path.
-- - Controller: pkg/controller, the list of containers that the daemon keeps in memory and in a
--   state file for each, and pkg/daemon/disk-events.go, its watcher of these files.
--   Controller/Names is tools.go of pkg/container/config with diskEventAction, Controller/Store
--   the list and the files, Controller/Sets set.go and the POST route of server.go, and
--   Controller/Watch the events, the reconciling and the listing of containers.go. A configuration
--   is its name, its generation and its other fields; whether a file can be written, and what the
--   watcher read, are arguments, so that a read may be older than the state that it is loaded
--   into.
-- - Squashfs: pkg/lib/squashfs/writer.go, the images that containers are stored in.
--   Squashfs/Writer is the data of files, Squashfs/Metadata the metadata blocks and references to
--   them, Squashfs/Inodes and Squashfs/Directories the two tables, and Squashfs/Tree the walk, the
--   tables at the end and the superblock; Squashfs/Reading and Squashfs/ReadInode are how the
--   format is read, and Squashfs/Shapes, Squashfs/Growing, Squashfs/Walk, Squashfs/Children,
--   Squashfs/Found and Squashfs/Kept are the proof about the walk. The output file is the bytes
--   behind the superblock, and a file that is shorter than Lstat gave is an error of the walk.
--   Squashfs/Filter is the path filter of pkg/lib/squashfs/filter.go.
-- - Registry: references to images, pkg/lib/container/registry/reference.go.
-- - Forward: the -p flag, pkg/container/forward/spec.go. Forward/Spec is the parser, Forward/Go
--   what it uses of strconv, net and strings.
-- - Build: Dockerfiles, pkg/lib/container/build/dockerfile.go and instruction.go. Build/Lines
--   joins the lines, Build/Instruction reads an instruction, Build/Tokens its words, flags and
--   quotes, and Build/Text is what they use of package strings.
-- - Prelude: shared names, lists over the native numbers, machine words, byte strings.
-- - Tests: the definitions run on concrete inputs, and each result below applied to one.
--
-- A Go integer of w bits is a natural number with the wrap-around written out; a Go int is an
-- integer where it can be negative. A panic is a result of its own (Kvm/Virtqueue), and so is each
-- returned error, without its text.
--
-- Fuel: writeFileDataStreamed has one more than the file's bytes, and a metadata table as many as
-- its bytes, of which every round takes one or more. The walk along a descriptor chain takes fuel,
-- a round for each descriptor, and so does the loop of ProcessAvailRing, a round for each chain
-- and one to see that none is left. Running out is a result of its own: the code has no bound,
-- since the guest decides the length of a chain. ParseOptions has as fuel one more than its bytes,
-- of which every round reads one or more, and extractFlags as many as its bytes, of which every
-- round but the last reads two or more. ParseOptions6 has one more than its bytes, of which every
-- round but the last reads four or more, and the loop over a DHCPv6 list of name servers as many
-- as its bytes, of which a round reads sixteen. The search of IPRequest takes a round for each
-- address that it tries; the code has no bound there, and running out is a result of its own. The
-- reader of device trees takes the blob's length, of which every item has four bytes or more, and
-- a number is printed with fuel for 64 bits. All other loops are by recursion on the list that
-- they read.
--
-- Parameters: the reading of a JSON array of strings and the JSON of a configuration
-- (encoding/json), compress/zlib, the letters and the lower case of Unicode (package unicode), the
-- handler of a virtio device, what a tar reader gives, whether an address is in use (addrInUse,
-- which asks the host), and which addresses a container owns.
--
-- Not modelled: system calls, namespaces, cgroups, netlink and the ioctls of KVM; the HTTP of the
-- image registry; the command tables; the Apple virtualization bindings; the device back ends for
-- net, vsock and file sharing; the sockets and random times of the DHCPv6 client; the HTTP server
-- of the controller but for its POST, and the health check of the daemon; the list of names and
-- the progress of the squashfs writer, and errors of its output file; locks and the scheduling of
-- goroutines, beyond the orders of events that the theorems range over.
pub mod Prelude
pub mod Build
pub mod Controller
pub mod Dhcp
pub mod Dhcp6
pub mod Forward
pub mod Image
pub mod Kvm
pub mod Net
pub mod Registry
pub mod Squashfs
pub mod Tests
