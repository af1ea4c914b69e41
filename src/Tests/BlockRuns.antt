-- ===== src/Tests/BlockRuns.antt =====
-- Runs of the block device of pkg/vm/kvm/virtio_blk.go on a disk of a few bytes.
use sandal.Prelude.{◌≡◌, refl, true, false, List, [], ◌∷◌, ◌++◌, arith}
use sandal.Prelude.Words.{Bytes}
use sandal.Kvm.Virtqueue.{ok, panics}
use sandal.Kvm.Block.{
  Disk, Served, features, config_read, read_at, splice, write_at, fill, read_loop, drain,
  write_loop, set_status, write_if, perform, type_and_sector, with_header, handle_request,
}
use sandal.Kvm.Block.RoundTrip.{request, read-write}
use sandal.Kvm.Block.Bounds.{IsServed, handle_request-IsServed}

abbrev disk : Disk
disk = record { contents = 1 ∷ 2 ∷ 3 ∷ []; read_only = false; size = 1024; sync_fails = false }

abbrev parts : List Bytes
parts = (7 ∷ 8 ∷ []) ∷ (9 ∷ []) ∷ []

abbrev buffers : List Bytes
buffers = (0 ∷ 0 ∷ []) ∷ (0 ∷ []) ∷ []

read-write_example :
    (w : Served) × (handle_request disk (request 1 5 ∷ parts) ((255 ∷ []) ∷ []) ≡ w)
    × (w.buffers ≡ (0 ∷ []) ∷ [])
    × (handle_request w.disk (request 0 5 ∷ []) (buffers ++ (255 ∷ []) ∷ [])
        ≡ record { written = 4; buffers = parts ++ (0 ∷ []) ∷ []; disk = w.disk })
read-write_example =
    read-write disk 5 parts buffers 255 255 refl (refl, (refl, tt)) (omega arith) (omega arith)

handle_request-IsServed_example :
    IsServed disk buffers (handle_request disk (request 0 0 ∷ []) buffers)
handle_request-IsServed_example = handle_request-IsServed disk (request 0 0 ∷ []) buffers

-- A write behind the end, with its gap; a read at the end; a request of another type; a write to a
-- disk that is read-only; a sector whose offset wraps to the disk's begin.
requests :
    ((handle_request disk (request 1 0 ∷ (4 ∷ 5 ∷ 6 ∷ 7 ∷ []) ∷ []) ((9 ∷ []) ∷ [])).disk.contents
      ≡ 4 ∷ 5 ∷ 6 ∷ 7 ∷ [])
    × ((handle_request disk (request 0 0 ∷ []) ((0 ∷ 0 ∷ 0 ∷ 0 ∷ []) ∷ (9 ∷ []) ∷ [])).buffers
        ≡ (1 ∷ 2 ∷ 3 ∷ 0 ∷ []) ∷ (0 ∷ []) ∷ [])
    × ((handle_request disk (request 0 1 ∷ []) ((0 ∷ []) ∷ (9 ∷ []) ∷ [])).buffers
        ≡ (0 ∷ []) ∷ (1 ∷ []) ∷ [])
    × ((handle_request disk (request 8 0 ∷ []) ((9 ∷ []) ∷ [])).buffers ≡ (2 ∷ []) ∷ [])
    × ((handle_request
          (record disk { read_only = true })
          (request 1 0 ∷ (4 ∷ []) ∷ [])
          ((9 ∷ []) ∷ [])).buffers
        ≡ (1 ∷ []) ∷ [])
    × ((handle_request disk (request 0 36028797018963968 ∷ []) ((0 ∷ []) ∷ (9 ∷ []) ∷ [])).buffers
        ≡ (1 ∷ []) ∷ (0 ∷ []) ∷ [])
    × ((handle_request disk ((0 ∷ []) ∷ []) ((9 ∷ []) ∷ [])).written ≡ 0)
    × (features disk ≡ 582)
    × (config_read disk 20 4 ≡ ok 512)
    × (config_read disk 31 2 ≡ ok 0)
    × (config_read disk 4294967295 2 ≡ panics)
unfolding handle_request with_header type_and_sector perform write_if read_loop read_at fill
    write_loop write_at drain splice set_status features config_read
requests = (refl, refl, refl, refl, refl, refl, refl, refl, refl, refl, refl)
