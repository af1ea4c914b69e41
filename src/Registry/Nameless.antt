-- ===== src/Registry/Nameless.antt =====
-- ParseReference of pkg/lib/container/registry/reference.go, of a reference without a name.
use sandal.Prelude.{
  ℕ, suc, ◌≡◌, refl, inl, inr, none, some, [], ◌∷◌, ◌==◌, Bool-cases, Option-cases,
}
use sandal.Prelude.Words.{Bytes}
use sandal.Prelude.Text.{codes, equal, index_byte, last_index_byte}
use sandal.Registry.{
  parsed, normalize, or_latest, parse_reference, without_digest, split_registry, split_tag, hub,
}

last_index_byte-none : (s : Bytes) (b : ℕ) → index_byte s b ≡ none → last_index_byte s b ≡ none
unfolding index_byte last_index_byte
last_index_byte-none [] b e = refl
last_index_byte-none (x ∷ s) b e = elim (Bool-cases (x == b)) [
  | inl k ↦ (let g : some 0 ≡ none = rw k at e in absurd cc)
  | inr k ↦ elim (Option-cases (index_byte s b)) [
    | inl n ↦ rw (last_index_byte-none s b n, k) refl
    | inr (i, n) ↦ (let g : some (suc i) ≡ none = rw (k, n) at e in absurd cc)
  ]
]

-- A reference that is a tag alone, behind its colon, is accepted, with the repository "library/",
-- which has no name; so is the empty tag, for which the tag is "latest".
pub parse_reference-nameless :
    (tag : Bytes)
    → index_byte tag b'@' ≡ none
    → index_byte tag b'/' ≡ none
    → index_byte tag b':' ≡ none
    → parse_reference (b':' ∷ tag)
      ≡ parsed (record {
        registry = hub;
        repository = codes "library/";
        tag = or_latest tag [];
        digest = [];
      })
unfolding parse_reference without_digest index_byte last_index_byte split_registry split_tag
    normalize equal
parse_reference-nameless tag at_sign slash colon =
    rw (at_sign, slash, last_index_byte-none tag b'/' slash, last_index_byte-none tag b':' colon)
      refl
