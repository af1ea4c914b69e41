-- ===== src/Kvm/DeviceTree/Writing.antt =====
-- What the calls of pkg/vm/kvm/dtb.go for a list of items write, and how it is read.
use sandal.Prelude.{
  ◌≡◌, refl, ap, sym, ◌∙◌, ℕ, zero, suc, ◌≤◌, ◌<◌, Option, none, some, List, [], ◌∷◌, ◌++◌, length,
  length-append, All, arith, append_assoc, append-nil,
}
use sandal.Prelude.Words.{Bytes, be32}
use sandal.Kvm.DeviceTree.{
  FdtBuilder, append_u32, pad_to4, begin_node, end_node, prop_raw, add_string, add_new, offset_of,
}
use sandal.Kvm.DeviceTree.Reader.{
  Item, begins, ends, property, put, put_all, read_token, read_kind, prepend, read_items,
}
use sandal.Kvm.DeviceTree.Strings.{NamedAt, NamedAt-append, AllNamed, not_empty, add_string-IsAdded}
use sandal.Kvm.DeviceTree.Encoding.{code, IsItem, IsNamed, read_token-code}

-- What a call for an item leaves: the item's code behind the structure block.
record IsPut (i : Item) (f g : FdtBuilder) : Type 0 where
  off : ℕ
  named : length g.strings < 4294967296 → IsNamed g.strings i off
  all_named : AllNamed g.strings g.str_index
  more : Bytes
  grown : g.strings ≡ f.strings ++ more
  coded : g.structs ≡ f.structs ++ code i off

four_parts : (a b c d e : Bytes) → (((a ++ b) ++ c) ++ d) ++ e ≡ a ++ (b ++ (c ++ (d ++ e)))
four_parts a b c d e = simp (append_assoc)

named_below :
    (strings : Bytes) (off : ℕ) (name : Bytes) → NamedAt strings off name → off < length strings
named_below [] zero name (rest, e) = absurd (not_empty name rest e)
named_below [] (suc off) name (rest, e) = absurd (not_empty name rest e)
named_below (s ∷ strings) zero name h = omega arith
named_below (s ∷ strings) (suc off) name h = ground (arith, named_below strings off name h)

put-IsPut :
    (i : Item) (f : FdtBuilder)
    → AllNamed f.strings f.str_index
    → length f.strings < 4294967296
    → IsPut i f (put i f)
unfolding begin_node end_node prop_raw append_u32
put-IsPut (begins name) f h l = record {
  off = 0;
  named = λ _. tt;
  all_named = h;
  more = [];
  grown = sym (append-nil f.strings);
  coded = append_assoc f.structs (be32 1) (pad_to4 (name ++ 0 ∷ []));
}
put-IsPut ends f h l = record {
  off = 0;
  named = λ _. tt;
  all_named = h;
  more = [];
  grown = sym (append-nil f.strings);
  coded = refl;
}
put-IsPut (property name value) f h l =
    let g = append_u32 (length value) (append_u32 3 f) in
    let a = add_string-IsAdded g name h l in
    let off = (add_string g name).1 in
    record {
      off = off;
      named = λ fits. (a.named, ground (arith, named_below _ off name a.named));
      all_named = a.all_named;
      more = a.more;
      grown = a.grown;
      coded =
          ap (λ b. (b ++ be32 off) ++ pad_to4 value) a.same_structs
          ∙ four_parts f.structs (be32 3) (be32 (length value)) (be32 off) (pad_to4 value);
    }

-- The builder after a list of calls: the codes of the items, which are read back as the items.
pub record IsWritten (is : List Item) (f g : FdtBuilder) : Type 0 where
  pub codes : Bytes
  pub coded : g.structs ≡ f.structs ++ codes
  pub more : Bytes
  pub grown : g.strings ≡ f.strings ++ more
  pub long : length is ≤ length codes
  pub reads : (fuel : ℕ) → length is < fuel → read_items fuel g.strings (codes ++ be32 9) ≡ some is

add_new-longer :
    (f : FdtBuilder) (name : Bytes) (o : Option ℕ)
    → length f.strings ≤ length (add_new f name o).0.strings
unfolding add_new
add_new-longer f name (some off) = omega arith
add_new-longer f name none = omega (arith, length-append f.strings (name ++ 0 ∷ []))

add_string-longer :
    (f : FdtBuilder) (name : Bytes) → length f.strings ≤ length (add_string f name).0.strings
unfolding add_string
add_string-longer f name = add_new-longer f name (offset_of f.str_index name)

put-longer : (i : Item) (f : FdtBuilder) → length f.strings ≤ length (put i f).strings
unfolding begin_node end_node prop_raw append_u32
put-longer (begins name) f = omega arith
put-longer ends f = omega arith
put-longer (property name value) f =
    add_string-longer (append_u32 (length value) (append_u32 3 f)) name

put_all-longer :
    (is : List Item) (f : FdtBuilder) → length f.strings ≤ length (put_all is f).strings
put_all-longer [] f = omega arith
put_all-longer (i ∷ is) f = omega (arith, put-longer i f, put_all-longer is (put i f))

IsNamed-append :
    (i : Item) (strings more : Bytes) (off : ℕ)
    → IsNamed strings i off
    → IsNamed (strings ++ more) i off
IsNamed-append (begins name) strings more off h = tt
IsNamed-append ends strings more off h = tt
IsNamed-append (property name value) strings more off (n, o) =
    (NamedAt-append off strings more name n, o)

code-longer : (i : Item) (off : ℕ) → 1 ≤ length (code i off)
code-longer (begins name) off = omega arith
code-longer ends off = omega arith
code-longer (property name value) off = omega arith

read_items-code :
    (fuel : ℕ) (strings : Bytes) (i : Item) (off : ℕ) (rest : Bytes)
    → IsItem i
    → IsNamed strings i off
    → read_items (suc fuel) strings (code i off ++ rest) ≡ prepend i (read_items fuel strings rest)
unfolding read_items
read_items-code fuel strings i off rest h n = rw (read_token-code strings i off rest h n)

read_items-end :
    (strings : Bytes) (fuel : ℕ) → 0 < fuel → read_items fuel strings (be32 9) ≡ some []
unfolding read_items read_token read_kind
read_items-end strings zero l = absurd (omega arith)
read_items-end strings (suc fuel) l = refl

read_items-more :
    (i : Item) (is : List Item) (off : ℕ) (bytes strings : Bytes)
    → IsItem i
    → IsNamed strings i off
    → ((fuel : ℕ) → length is < fuel → read_items fuel strings (bytes ++ be32 9) ≡ some is)
    → (fuel : ℕ) → length (i ∷ is) < fuel
    → read_items fuel strings ((code i off ++ bytes) ++ be32 9) ≡ some (i ∷ is)
read_items-more i is off bytes strings h n r zero l = absurd (omega arith)
read_items-more i is off bytes strings h n r (suc fuel) l =
    ap (read_items (suc fuel) strings) (append_assoc (code i off) bytes (be32 9))
    ∙ read_items-code fuel strings i off (bytes ++ be32 9) h n
    ∙ ap (prepend i) (r fuel (omega arith))

pub put_all-IsWritten :
    (is : List Item) (f : FdtBuilder)
    → All IsItem is
    → AllNamed f.strings f.str_index
    → length (put_all is f).strings < 4294967296
    → IsWritten is f (put_all is f)
put_all-IsWritten [] f h a l = record {
  codes = [];
  coded = sym (append-nil f.structs);
  more = [];
  grown = sym (append-nil f.strings);
  long = omega arith;
  reads = read_items-end f.strings;
}
put_all-IsWritten (i ∷ is) f (h, hs) a l =
    let fits = put_all-longer is (put i f) in
    let p = put-IsPut i f a (omega (arith, put-longer i f)) in
    let w = put_all-IsWritten is (put i f) hs p.all_named l in
    let n : IsNamed (put_all is (put i f)).strings i p.off =
      rw w.grown (IsNamed-append i (put i f).strings w.more p.off (p.named (omega arith))) in
    record {
      codes = code i p.off ++ w.codes;
      coded =
          w.coded ∙ ap (λ b. b ++ w.codes) p.coded ∙ append_assoc f.structs (code i p.off) w.codes;
      more = p.more ++ w.more;
      grown = w.grown ∙ ap (λ b. b ++ w.more) p.grown ∙ append_assoc f.strings p.more w.more;
      long = omega (arith, w.long, code-longer i p.off, length-append (code i p.off) w.codes);
      reads = read_items-more i is p.off w.codes (put_all is (put i f)).strings h n w.reads;
    }
