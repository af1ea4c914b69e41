-- ===== src/Kvm/DeviceTree/Reader.antt =====
-- The device tree blob as its specification reads it: the nodes and properties of a blob in order.
use sandal.Prelude.{
  ℕ, zero, suc, ◌+◌, Option, none, some, List, [], ◌∷◌, length, take, drop, ◌==◌, if◌then◌else◌,
}
use sandal.Prelude.Words.{Bytes, from_be32}
use sandal.Kvm.DeviceTree.{FdtBuilder, begin_node, end_node, prop_raw, padding}

pub data Item : Type 0 where
  begins : Bytes → Item
  ends : Item
  property : Bytes → Bytes → Item

-- The calls of the builder that write an item.
abbrev pub put : Item → FdtBuilder → FdtBuilder
put (begins name) f = begin_node name f
put ends f = end_node f
put (property name value) f = prop_raw name value f

abbrev pub put_all : List Item → FdtBuilder → FdtBuilder
put_all [] f = f
put_all (i ∷ is) f = put_all is (put i f)

-- The bytes before the first zero, and those behind it.
abbrev pub before_zero : Bytes → Bytes
before_zero [] = []
before_zero (b ∷ bs) = if b == 0 then [] else b ∷ before_zero bs

abbrev pub behind_zero : Bytes → Bytes
behind_zero [] = []
behind_zero (b ∷ bs) = if b == 0 then bs else behind_zero bs

abbrev pub skip_padding : ℕ → Bytes → Bytes
skip_padding n b = drop (length (padding n)) b

-- What the next token starts: an item and the bytes behind it, the end, or nothing valid.
pub data Token : Type 0 where
  item : Item → Bytes → Token
  finished invalid : Token

-- A property, with its length and the offset of its name read.
abbrev pub read_property : Bytes → ℕ → ℕ → Bytes → Token
read_property strings size off b =
    item (property (before_zero (drop off strings)) (take size b)) (skip_padding size (drop size b))

abbrev read_lengths : Bytes → Bytes → Token
read_lengths strings (a ∷ b ∷ c ∷ d ∷ e ∷ f ∷ g ∷ h ∷ rest) =
    read_property strings (from_be32 a b c d) (from_be32 e f g h) rest
read_lengths strings _ = invalid

unfoldable pub read_kind : Bytes → ℕ → Bytes → Token
read_kind strings kind b =
    if kind == 1
    then item (begins (before_zero b)) (skip_padding (length (before_zero b) + 1) (behind_zero b))
    else if kind == 2
    then item ends b
    else if kind == 3
    then read_lengths strings b
    else if kind == 9
    then finished
    else invalid

unfoldable pub read_token : Bytes → Bytes → Token
read_token strings (a ∷ b ∷ c ∷ d ∷ rest) = read_kind strings (from_be32 a b c d) rest
read_token strings _ = invalid

abbrev pub prepend : Item → Option (List Item) → Option (List Item)
prepend i none = none
prepend i (some is) = some (i ∷ is)

abbrev resume : Token → (Bytes → Option (List Item)) → Option (List Item)
resume (item i rest) k = prepend i (k rest)
resume finished k = some []
resume invalid k = none

-- The items up to the end token, a round for each unit of fuel.
unfoldable pub read_items : ℕ → Bytes → Bytes → Option (List Item)
read_items zero strings b = none
read_items (suc fuel) strings b =
    resume (read_token strings b) (λ rest. read_items fuel strings rest)

abbrev word_at : ℕ → Bytes → ℕ
word_at i b = first (drop i b)
  where
    first : Bytes → ℕ
    first (a ∷ b ∷ c ∷ d ∷ _) = from_be32 a b c d
    first _ = 0

-- The items of a blob whose header has these words: the magic number, the total size, the offsets
-- of the two blocks, and their sizes. `none` for another magic number, or another total size.
unfoldable pub read_blocks :
    (magic total structs_at strings_at strings_size structs_size : ℕ) → Bytes → Option (List Item)
read_blocks magic total structs_at strings_at strings_size structs_size blob =
    if magic == 0xd00dfeed
    then if total == length blob
      then read_items (length blob) (take strings_size (drop strings_at blob))
          (take structs_size (drop structs_at blob))
      else none
    else none

unfoldable pub read_blob : Bytes → Option (List Item)
read_blob blob =
    read_blocks (word_at 0 blob) (word_at 4 blob) (word_at 8 blob) (word_at 12 blob)
      (word_at 32 blob) (word_at 36 blob) blob
