-- ===== src/Kvm/DeviceTree/RoundTrip.antt =====
-- The blob of pkg/vm/kvm/dtb.go read back.
use sandal.Prelude.{
  drop-append_past, ◌≡◌, refl, ap, sym, ◌∙◌, ℕ, ◌+◌, ◌<◌, some, List, [], ◌++◌, length, take, drop,
  replicate, take-append_self, drop-append_self, length-append, All, arith, append-nil,
}
use sandal.Prelude.Words.{Bytes, be32, from_be32-be32, u32}
use sandal.Kvm.DeviceTree.{FdtBuilder, new_fdt_builder, append_u32, finish, header}
use sandal.Kvm.DeviceTree.Reader.{Item, put_all, read_items, read_blob, read_blocks}
use sandal.Kvm.DeviceTree.Encoding.{IsItem}
use sandal.Kvm.DeviceTree.Writing.{put_all-IsWritten}

-- The blob's sizes: the header, the reservation block and the two blocks.
finish-length : (f : FdtBuilder) → length (finish f) ≡ 60 + length f.structs + length f.strings
unfolding finish append_u32
finish-length f =
    omega (arith, length-append (f.structs ++ be32 9) f.strings, length-append f.structs (be32 9))

-- The blocks found by a header that holds the sizes of the blocks.
read_blocks-blob :
    (head structs strings : Bytes)
    → length head ≡ 56
    → read_blocks 0xd00dfeed
        (56 + length structs + length strings)
        56
        (56 + length structs)
        (length strings)
        (length structs)
        (head ++ (structs ++ strings))
      ≡ read_items (56 + length structs + length strings) strings structs
unfolding read_blocks
read_blocks-blob head structs strings e =
    let total : length (head ++ (structs ++ strings)) ≡ 56 + length structs + length strings =
      omega (arith, length-append head (structs ++ strings), length-append structs strings, e) in
    let first : take (length structs) (drop 56 (head ++ (structs ++ strings))) ≡ structs =
      ap (take (length structs)) (drop-append_past 56 0 head (structs ++ strings) (omega arith))
      ∙ take-append_self structs strings in
    let second : take (length strings) (drop (56 + length structs) (head ++ (structs ++ strings)))
        ≡ strings =
      ap (take (length strings)) (
        drop-append_past (56 + length structs) (length structs) head (structs ++ strings)
          (omega arith)
        ∙ drop-append_self structs strings)
      ∙ ap (take (length strings)) (sym (append-nil strings))
      ∙ take-append_self strings [] in
    rw (total, first, second) (ground arith)

read_blob-header :
    (x y : ℕ) (body : Bytes)
    → 56 + x + y < 4294967296
    → read_blob (header (u32 x) (u32 y) ++ (replicate 16 0 ++ body))
      ≡ read_blocks 0xd00dfeed
          (56 + x + y)
          56
          (56 + x)
          y
          x
          (header (u32 x) (u32 y) ++ (replicate 16 0 ++ body))
unfolding read_blob
read_blob-header x y body l =
    let a : u32 x ≡ x = omega arith in
    let b : u32 y ≡ y = omega arith in
    let c : u32 (56 + x) ≡ 56 + x = omega arith in
    let d : u32 (56 + x + y) ≡ 56 + x + y = omega arith in
    rw
      (
        a,
        b,
        c,
        d,
        from_be32-be32 x (omega arith),
        from_be32-be32 y (omega arith),
        from_be32-be32 (56 + x) (omega arith),
        from_be32-be32 (56 + x + y) l,
      )
      refl

read_blob-finish :
    (f : FdtBuilder)
    → length (finish f) < 4294967296
    → read_blob (finish f) ≡ read_items (length (finish f)) f.strings (f.structs ++ be32 9)
unfolding finish append_u32
read_blob-finish f l =
    let s = f.structs ++ be32 9 in
    let n : length (finish f) ≡ 56 + length s + length f.strings =
      omega (arith, length-append s f.strings) in
    read_blob-header (length s) (length f.strings) (s ++ f.strings) (omega arith)
    ∙ read_blocks-blob (header (u32 (length s)) (u32 (length f.strings)) ++ replicate 16 0) s
        f.strings refl
    ∙ ap (λ k. read_items k f.strings s) (sym n)

-- A tree built by the calls for a list of items, with no zero in a name, is read back from its
-- blob as that list, where the blob is below 4 GiB.
pub read_blob-put_all :
    (is : List Item)
    → All IsItem is
    → length (finish (put_all is new_fdt_builder)) < 4294967296
    → read_blob (finish (put_all is new_fdt_builder)) ≡ some is
read_blob-put_all is h l =
    let f = put_all is new_fdt_builder in
    let n = finish-length f in
    let w = put_all-IsWritten is new_fdt_builder h tt (omega arith) in
    read_blob-finish f l
    ∙ ap (λ b. read_items (length (finish f)) f.strings (b ++ be32 9)) w.coded
    ∙ w.reads (length (finish f)) (omega (arith, w.long, ap length w.coded))
