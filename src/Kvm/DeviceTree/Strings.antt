-- ===== src/Kvm/DeviceTree/Strings.antt =====
-- The strings block of pkg/vm/kvm/dtb.go: every offset that addString gives is that of its name.
use sandal.Prelude.{
  ◌≡◌, refl, ap, sym, ◌∙◌, inl, inr, ℕ, zero, suc, ◌<◌, Option, none, some, List, [], ◌∷◌, ◌++◌,
  length, drop, drop-append_self, All, Bool-cases, arith, append_assoc, append-nil,
}
use mathlib.Core.Option.{some-injective}
use sandal.Prelude.Words.{Bytes, u32}
use sandal.Prelude.Text.{equal, equal_iff}
use sandal.Kvm.DeviceTree.{FdtBuilder, offset_of, add_new, add_string}

-- The name stands at the offset, with a zero behind it.
abbrev pub NamedAt : Bytes → ℕ → Bytes → Type 0
NamedAt strings off name = (rest : Bytes) × (drop off strings ≡ name ++ 0 ∷ rest)

abbrev pub AllNamed : Bytes → List (Bytes × ℕ) → Type 0
AllNamed strings index = All (λ e. NamedAt strings e.1 e.0) index

pub not_empty : (name rest : Bytes) → ◌≡◌ {A = Bytes} [] (name ++ 0 ∷ rest) → ⊥
not_empty [] rest e = cc
not_empty (x ∷ name) rest e = cc

drop-append_named :
    (off : ℕ) (strings more name rest : Bytes)
    → drop off strings ≡ name ++ 0 ∷ rest
    → drop off (strings ++ more) ≡ name ++ 0 ∷ (rest ++ more)
drop-append_named zero strings more name rest e =
    ap (λ s. s ++ more) e ∙ append_assoc name (0 ∷ rest) more
drop-append_named (suc off) [] more name rest e = absurd (not_empty name rest e)
drop-append_named (suc off) (s ∷ strings) more name rest e =
    drop-append_named off strings more name rest e

pub NamedAt-append :
    (off : ℕ) (strings more name : Bytes)
    → NamedAt strings off name
    → NamedAt (strings ++ more) off name
NamedAt-append off strings more name (rest, e) =
    (rest ++ more, drop-append_named off strings more name rest e)

AllNamed-append :
    (strings more : Bytes) (index : List (Bytes × ℕ))
    → AllNamed strings index
    → AllNamed (strings ++ more) index
AllNamed-append strings more [] h = tt
AllNamed-append strings more ((k, o) ∷ index) h =
    (NamedAt-append o strings more k h.0, AllNamed-append strings more index h.1)

offset_of-NamedAt :
    (strings : Bytes) (index : List (Bytes × ℕ)) (name : Bytes) (off : ℕ)
    → AllNamed strings index
    → offset_of index name ≡ some off
    → NamedAt strings off name
unfolding offset_of
offset_of-NamedAt strings [] name off h e = absurd cc
offset_of-NamedAt strings ((k, o) ∷ index) name off h e = elim (Bool-cases (equal k name)) [
  | inr c ↦ offset_of-NamedAt strings index name off h.1 (rw c at e)
  | inl c ↦
      let same : k ≡ name = (equal_iff k name).0 c in
      let at : o ≡ off = some-injective _ _ (rw c at e) in rw (sym same, sym at) h.0
]

-- What addString leaves: the name at the offset that it gives, and the block longer or the same.
pub record IsAdded (f : FdtBuilder) (name : Bytes) (g : FdtBuilder) (off : ℕ) : Type 0 where
  pub named : NamedAt g.strings off name
  pub all_named : AllNamed g.strings g.str_index
  pub more : Bytes
  pub grown : g.strings ≡ f.strings ++ more
  pub same_structs : g.structs ≡ f.structs

pub add_string-IsAdded :
    (f : FdtBuilder) (name : Bytes)
    → AllNamed f.strings f.str_index
    → length f.strings < 4294967296
    → IsAdded f name (add_string f name).0 (add_string f name).1
unfolding add_string add_new
add_string-IsAdded f name h l = go (offset_of f.str_index name) refl
  where
    go :
        (o : Option ℕ)
        → offset_of f.str_index name ≡ o
        → IsAdded f name (add_new f name o).0 (add_new f name o).1
    go (some off) e = record {
      named = offset_of-NamedAt f.strings f.str_index name off h e;
      all_named = h;
      more = [];
      grown = sym (append-nil f.strings);
      same_structs = refl;
    }
    go none e =
        let u : u32 (length f.strings) ≡ length f.strings = omega arith in
        let new : NamedAt (f.strings ++ (name ++ 0 ∷ [])) (u32 (length f.strings)) name =
          rw u ([], drop-append_self f.strings (name ++ 0 ∷ [])) in
        record {
          named = new;
          all_named = (new, AllNamed-append f.strings (name ++ 0 ∷ []) f.str_index h);
          more = name ++ 0 ∷ [];
          grown = refl;
          same_structs = refl;
        }
