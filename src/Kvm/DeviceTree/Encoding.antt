-- ===== src/Kvm/DeviceTree/Encoding.antt =====
-- The structure block of pkg/vm/kvm/dtb.go, item by item, and how each item is read back.
use sandal.Prelude.{
  ◌≡◌, refl, ap, ◌∙◌, ℕ, ◌+◌, ◌<◌, ◌≢◌, [], ◌∷◌, ◌++◌, length, drop, take-append_self,
  drop-append_self, length-append, All, arith, append_assoc,
}
use sandal.Prelude.Words.{Bytes, be32, from_be32-be32}
use sandal.Kvm.DeviceTree.{pad_to4, padding}
use sandal.Kvm.DeviceTree.Reader.{
  Item, begins, ends, property, before_zero, behind_zero, skip_padding, item, read_token, read_kind,
  read_property,
}
use sandal.Kvm.DeviceTree.Strings.{NamedAt}

abbrev pub HasNoZero : Bytes → Type 0
HasNoZero b = All (λ x. x ≢ 0) b

before_zero_lem : (name rest : Bytes) → HasNoZero name → before_zero (name ++ 0 ∷ rest) ≡ name
before_zero_lem [] rest h = refl
before_zero_lem (x ∷ name) rest h = ground (arith, h.0, before_zero_lem name rest h.1)

behind_zero_lem : (name rest : Bytes) → HasNoZero name → behind_zero (name ++ 0 ∷ rest) ≡ rest
behind_zero_lem [] rest h = refl
behind_zero_lem (x ∷ name) rest h = ground (arith, h.0, behind_zero_lem name rest h.1)

-- The bytes of an item, with the offset of a property's name.
abbrev pub code : Item → ℕ → Bytes
code (begins name) off = be32 1 ++ pad_to4 (name ++ 0 ∷ [])
code ends off = be32 2
code (property name value) off = be32 3 ++ (be32 (length value) ++ (be32 off ++ pad_to4 value))

-- Names have no zero, and a property's value has a length below 2^32.
abbrev pub IsItem : Item → Type 0
IsItem (begins name) = HasNoZero name
IsItem ends = Unit
IsItem (property name value) = HasNoZero name × (length value < 4294967296)

abbrev pub IsNamed : Bytes → Item → ℕ → Type 0
IsNamed strings (begins name) off = Unit
IsNamed strings ends off = Unit
IsNamed strings (property name value) off = NamedAt strings off name × (off < 4294967296)

-- The bytes of a name and its zero, padded, in front of others.
pad_to4-append : (b rest : Bytes) → pad_to4 b ++ rest ≡ b ++ (padding (length b) ++ rest)
unfolding pad_to4
pad_to4-append b rest = append_assoc b (padding (length b)) rest

skip_padding-append : (n : ℕ) (rest : Bytes) → skip_padding n (padding n ++ rest) ≡ rest
skip_padding-append n rest = drop-append_self (padding n) rest

name-append :
    (name rest : Bytes)
    → pad_to4 (name ++ 0 ∷ []) ++ rest ≡ name ++ 0 ∷ (padding (length name + 1) ++ rest)
name-append name rest =
    pad_to4-append (name ++ 0 ∷ []) rest
    ∙ ap (λ n. (name ++ 0 ∷ []) ++ (padding n ++ rest)) (length-append name (0 ∷ []))
    ∙ append_assoc name (0 ∷ []) (padding (length name + 1) ++ rest)

read_name :
    (name rest : Bytes)
    → HasNoZero name
    → item (begins (before_zero (name ++ 0 ∷ (padding (length name + 1) ++ rest)))) (
        skip_padding
          (length (before_zero (name ++ 0 ∷ (padding (length name + 1) ++ rest))) + 1)
          (behind_zero (name ++ 0 ∷ (padding (length name + 1) ++ rest))))
      ≡ item (begins name) rest
read_name name rest h = rw (
  before_zero_lem name (padding (length name + 1) ++ rest) h,
  behind_zero_lem name (padding (length name + 1) ++ rest) h,
  skip_padding-append (length name + 1) rest,
)

read_property_lem :
    (strings name value rest tail : Bytes) (off : ℕ)
    → HasNoZero name
    → drop off strings ≡ name ++ 0 ∷ tail
    → read_property strings (length value) off (pad_to4 value ++ rest)
      ≡ item (property name value) rest
read_property_lem strings name value rest tail off h n = rw (
  pad_to4-append value rest,
  n,
  before_zero_lem name tail h,
  take-append_self value (padding (length value) ++ rest),
  drop-append_self value (padding (length value) ++ rest),
  skip_padding-append (length value) rest,
)

-- A token of the structure block is read as the item that it codes.
pub read_token-code :
    (strings : Bytes) (i : Item) (off : ℕ) (rest : Bytes)
    → IsItem i
    → IsNamed strings i off
    → read_token strings (code i off ++ rest) ≡ item i rest
unfolding read_token read_kind
read_token-code strings ends off rest h n = refl
read_token-code strings (begins name) off rest h n =
    rw (name-append name rest) (read_name name rest h)
read_token-code strings (property name value) off rest (h, l) ((tail, n), o) =
    rw (from_be32-be32 (length value) l, from_be32-be32 off o)
      (read_property_lem strings name value rest tail off h n)
