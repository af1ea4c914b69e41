-- ===== src/Kvm.antt =====
-- The KVM machine's devices (pkg/vm/kvm): serial port, clock, virtio transport, block device
-- and device tree.
pub mod Mmio
pub mod Uart
pub mod Rtc
pub mod Virtio
pub mod Virtqueue
pub mod Block
pub mod DeviceTree
