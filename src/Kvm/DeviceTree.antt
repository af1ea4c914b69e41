-- ===== src/Kvm/DeviceTree.antt =====
-- The flattened device tree that an arm64 guest boots with: pkg/vm/kvm/dtb.go.
pub mod Reader
pub mod Strings
pub mod Encoding
pub mod Writing
pub mod RoundTrip
pub mod Machine
pub mod Board
pub mod Calls
pub mod Names
pub mod Described
use sandal.Prelude.{
  ℕ, ◌+◌, ◌-◌, ◌%◌, ◌/◌, Bool, Option, none, some, List, [], ◌∷◌, ◌++◌, length, ◌==◌, if◌then◌else◌,
  replicate,
}
use sandal.Prelude.Words.{Bytes, u32, be32}
use sandal.Prelude.Text.{equal, codes}

-- fdtBuilder; a map is a list of its writes, of which none is to a key that is there.
pub record FdtBuilder : Type 0 where
  pub structs : Bytes
  pub strings : Bytes
  pub str_index : List (Bytes × ℕ)

-- newFDTBuilder
abbrev pub new_fdt_builder : FdtBuilder
new_fdt_builder = record { structs = []; strings = []; str_index = [] }

unfoldable pub offset_of : List (Bytes × ℕ) → Bytes → Option ℕ
offset_of [] s = none
offset_of ((k, off) ∷ index) s = if equal k s then some off else offset_of index s

-- addString, and the offset it returns.
unfoldable pub add_new : FdtBuilder → Bytes → Option ℕ → FdtBuilder × ℕ
add_new f s (some off) = (f, off)
add_new f s none =
    let off = u32 (length f.strings) in
    (record f { strings = f.strings ++ (s ++ 0 ∷ []); str_index = (s, off) ∷ f.str_index }, off)

unfoldable pub add_string : FdtBuilder → Bytes → FdtBuilder × ℕ
unfolding add_new
add_string f s = add_new f s (offset_of f.str_index s)

-- appendU32
unfoldable pub append_u32 : ℕ → FdtBuilder → FdtBuilder
append_u32 val f = record f { structs = f.structs ++ be32 val }

-- The zeros that padTo4 appends to data of a length.
abbrev pub padding : ℕ → Bytes
padding n = if n % 4 == 0 then [] else replicate (4 - n % 4) 0

-- padTo4
unfoldable pub pad_to4 : Bytes → Bytes
pad_to4 b = b ++ padding (length b)

-- beginNode and endNode
unfoldable pub begin_node : Bytes → FdtBuilder → FdtBuilder
begin_node name f =
    let g = append_u32 1 f in record g { structs = g.structs ++ pad_to4 (name ++ 0 ∷ []) }

unfoldable pub end_node : FdtBuilder → FdtBuilder
end_node f = append_u32 2 f

-- propRaw
unfoldable pub prop_raw : Bytes → Bytes → FdtBuilder → FdtBuilder
prop_raw name value f =
    let (g, off) = add_string (append_u32 (length value) (append_u32 3 f)) name in
    let h = append_u32 off g in record h { structs = h.structs ++ pad_to4 value }

abbrev pub be64 : ℕ → Bytes
be64 v = be32 (v / 4294967296) ++ be32 v

-- propU32, propU64, propString, propEmpty, propStringList, propU32Array, propRegU64 and propRegPair
unfoldable pub prop_u32 : Bytes → ℕ → FdtBuilder → FdtBuilder
prop_u32 name val f = prop_raw name (be32 val) f

unfoldable pub prop_u64 : Bytes → ℕ → FdtBuilder → FdtBuilder
prop_u64 name val f = prop_raw name (be64 val) f

unfoldable pub prop_string : Bytes → Bytes → FdtBuilder → FdtBuilder
prop_string name val f = prop_raw name (val ++ 0 ∷ []) f

unfoldable pub prop_empty : Bytes → FdtBuilder → FdtBuilder
prop_empty name f = prop_raw name [] f

abbrev zero_ended : List Bytes → Bytes
zero_ended [] = []
zero_ended (v ∷ vals) = (v ++ 0 ∷ []) ++ zero_ended vals

unfoldable pub prop_string_list : Bytes → List Bytes → FdtBuilder → FdtBuilder
prop_string_list name vals f = prop_raw name (zero_ended vals) f

abbrev pub all_be32 : List ℕ → Bytes
all_be32 [] = []
all_be32 (v ∷ vals) = be32 v ++ all_be32 vals

unfoldable pub prop_u32_array : Bytes → List ℕ → FdtBuilder → FdtBuilder
prop_u32_array name vals f = prop_raw name (all_be32 vals) f

unfoldable pub prop_reg_u64 : ℕ → ℕ → FdtBuilder → FdtBuilder
prop_reg_u64 addr size f = prop_raw (codes "reg") (be64 addr ++ be64 size) f

unfoldable pub prop_reg_pair : ℕ → ℕ → ℕ → ℕ → FdtBuilder → FdtBuilder
prop_reg_pair addr1 size1 addr2 size2 f =
    prop_raw (codes "reg") (be64 addr1 ++ (be64 size1 ++ (be64 addr2 ++ be64 size2))) f

-- The header of `finish`, over the sizes of the two blocks.
abbrev pub header : ℕ → ℕ → Bytes
header structs_size strings_size =
    be32 0xd00dfeed
    ++ (be32 (u32 (56 + structs_size + strings_size))
        ++ (be32 56
            ++ (be32 (u32 (56 + structs_size))
                ++ (be32 40
                    ++ (be32 17
                        ++ (be32 16 ++ (be32 0 ++ (be32 strings_size ++ be32 structs_size))))))))

-- finish: the header, an empty reservation block of 16 zeros, and the two blocks.
unfoldable pub finish : FdtBuilder → Bytes
finish f =
    let g = append_u32 9 f in
    header (u32 (length g.structs)) (u32 (length g.strings))
    ++ (replicate 16 0 ++ (g.structs ++ g.strings))
