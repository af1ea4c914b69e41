-- ===== src/Registry/RoundTrip.antt =====
-- A reference that pkg/lib/container/registry/reference.go prints is parsed as that reference.
use mathlib.Core.Path.{subst}
use sandal.Prelude.{
  ◌≡◌, ◌≢◌, refl, ap, sym, ◌∙◌, inl, inr, ◌⊎◌, ℕ, suc, ◌<◌, true, false, ◌||◌, none, some, [], ◌∷◌,
  ◌++◌, length, take, Bool-cases, arith, All, ◌==◌, ltb, append_assoc, take-append_self,
  drop-append_past,
}
use sandal.Prelude.Words.{Bytes}
use sandal.Prelude.Text.{codes, equal, index_byte, last_index_byte}
use sandal.Registry.{
  Reference, parsed, is_empty, is_hub, hub, normalize, or_latest, has_dot_or_colon, parse_reference,
  without_digest, split_registry, split_tag, cut_tag, to_string,
}

-- The bytes have none of a value.
abbrev IsWithout : ℕ → Bytes → Type 0
IsWithout b s = All (λ c. c ≢ b) s

index_byte-none : (b : ℕ) (s : Bytes) → IsWithout b s → index_byte s b ≡ none
unfolding index_byte
index_byte-none b [] h = refl
index_byte-none b (x ∷ s) h = ground (arith, index_byte-none b s h.1)

index_byte-append :
    (b : ℕ) (s t : Bytes) → IsWithout b s → index_byte (s ++ b ∷ t) b ≡ some (length s)
unfolding index_byte
index_byte-append b [] t h = ground arith
index_byte-append b (x ∷ s) t h = ground (arith, index_byte-append b s t h.1)

last_index_byte-none : (b : ℕ) (s : Bytes) → IsWithout b s → last_index_byte s b ≡ none
unfolding last_index_byte
last_index_byte-none b [] h = refl
last_index_byte-none b (x ∷ s) h = ground (arith, last_index_byte-none b s h.1)

last_index_byte-append :
    (b : ℕ) (s t : Bytes) → IsWithout b t → last_index_byte (s ++ b ∷ t) b ≡ some (length s)
unfolding last_index_byte
last_index_byte-append b [] t h = ground (arith, last_index_byte-none b t h)
last_index_byte-append b (x ∷ s) t h = rw (last_index_byte-append b s t h) refl

-- The last place in the first of two parts, where the second has none.
last_index_byte_first :
    (b : ℕ) (s t : Bytes)
    → IsWithout b t
    → (last_index_byte (s ++ t) b ≡ none)
      ⊎ ((i : ℕ) × (last_index_byte (s ++ t) b ≡ some i) × (i < length s))
unfolding last_index_byte
last_index_byte_first b [] t h = inl (last_index_byte-none b t h)
last_index_byte_first b (x ∷ s) t h = elim (last_index_byte_first b s t h) [
  | inr (i, e, l) ↦ inr (suc i, (rw e refl), omega arith)
  | inl e ↦ elim (Bool-cases (x == b)) [
    | inl k ↦ inr (0, (rw (e, k) refl), omega arith)
    | inr k ↦ inl (rw (e, k) refl)
  ]
]

-- The tag behind a repository without colons.
split_tag-append :
    (name tag : Bytes)
    → IsWithout b'/' tag
    → IsWithout b':' tag
    → split_tag [] (name ++ b':' ∷ tag) ≡ (tag, name)
unfolding split_tag
split_tag-append name tag s c =
    let cut : cut_tag (some (length name)) (name ++ b':' ∷ tag) ≡ (tag, name) =
      ap (λ d. (d, take (length name) (name ++ b':' ∷ tag)))
        (drop-append_past (suc (length name)) 1 name (b':' ∷ tag) (omega arith))
      ∙ ap (λ n. (tag, n)) (take-append_self name (b':' ∷ tag)) in
    elim (last_index_byte_first b'/' name (b':' ∷ tag) ((λ e. omega arith), s)) [
      | inl e ↦ rw (last_index_byte-append b':' name tag c, e) cut
      | inr (i, e, l) ↦
          (let k : ltb i (length name) ≡ true = ground arith in
            rw (last_index_byte-append b':' name tag c, e, k) cut)
    ]

abbrev IsHost : Bytes → Type 0
IsHost registry =
    ((has_dot_or_colon registry || equal registry (codes "localhost")) ≡ true)
    × (is_hub registry ≡ false)
    × IsWithout b'/' registry

split_registry-append :
    (registry rest : Bytes)
    → IsHost registry
    → split_registry (index_byte (registry ++ b'/' ∷ rest) b'/') (registry ++ b'/' ∷ rest)
      ≡ (registry, rest)
unfolding split_registry
split_registry-append registry rest (h, _, w) =
    rw
      (
        index_byte-append b'/' registry rest w,
        take-append_self registry (b'/' ∷ rest),
        h,
        drop-append_past (suc (length registry)) 1 registry (b'/' ∷ rest) (omega arith),
      )
      refl

without_digest_lem :
    (registry name tag digest rest : Bytes)
    → IsHost registry
    → is_empty name ≡ false
    → split_tag digest rest ≡ (tag, name)
    → or_latest tag digest ≡ tag
    → without_digest digest (registry ++ b'/' ∷ rest)
      ≡ parsed (record { registry = registry; repository = name; tag = tag; digest = digest })
unfolding without_digest normalize
without_digest_lem registry name tag digest rest (h, hub, w) n s l =
    rw (split_registry-append registry rest (h, hub, w), s, hub, l, n) refl

IsWithout-append : (b : ℕ) (s t : Bytes) → IsWithout b s → IsWithout b t → IsWithout b (s ++ t)
IsWithout-append b [] t h k = k
IsWithout-append b (x ∷ s) t h k = (h.0, IsWithout-append b s t h.1 k)

-- The reference has a tag without a slash, a colon or an at sign, or a digest and no tag.
abbrev IsPointed : Bytes → Bytes → Type 0
IsPointed tag digest =
    ((digest ≡ [])
      × (is_empty tag ≡ false)
      × IsWithout b'/' tag
      × IsWithout b':' tag
      × IsWithout b'@' tag)
    ⊎ ((tag ≡ []) × (is_empty digest ≡ false))

-- The registry has the form of a host and is no other name of Docker Hub; the repository is not
-- empty and has no at sign.
pub record IsCanonical (r : Reference) : Type 0 where
  pub host : IsHost r.registry
  pub host_plain : IsWithout b'@' r.registry
  pub named : is_empty r.repository ≡ false
  pub name_plain : IsWithout b'@' r.repository
  pub pointed : IsPointed r.tag r.digest

tagged :
    (registry name tag : Bytes)
    → IsCanonical (record { registry = registry; repository = name; tag = tag; digest = [] })
    → is_empty tag ≡ false
    → IsWithout b'/' tag
    → IsWithout b':' tag
    → IsWithout b'@' tag
    → parse_reference
        (to_string (record { registry = registry; repository = name; tag = tag; digest = [] }))
      ≡ parsed (record { registry = registry; repository = name; tag = tag; digest = [] })
unfolding parse_reference to_string
tagged registry name [] c e s k a = absurd cc
tagged registry name (t ∷ ts) c e s k a =
    let tag : Bytes = t ∷ ts in
    let input : Bytes = registry ++ b'/' ∷ (name ++ b':' ∷ tag) in
    let front : IsWithout b'@' input =
      IsWithout-append b'@' registry _ c.host_plain
        ((λ x. omega arith), IsWithout-append b'@' name _ c.name_plain ((λ x. omega arith), a)) in
    ap parse_reference (append_assoc registry (b'/' ∷ name) (b':' ∷ tag))
    ∙ rw (index_byte-none b'@' input front) (
        without_digest_lem registry name tag [] (name ++ b':' ∷ tag) c.host c.named
          (split_tag-append name tag s k) refl)

pinned :
    (registry name digest : Bytes)
    → IsCanonical (record { registry = registry; repository = name; tag = []; digest = digest })
    → is_empty digest ≡ false
    → parse_reference
        (to_string (record { registry = registry; repository = name; tag = []; digest = digest }))
      ≡ parsed (record { registry = registry; repository = name; tag = []; digest = digest })
unfolding parse_reference to_string split_tag
pinned registry name [] c e = absurd cc
pinned registry name (d ∷ ds) c e =
    let digest : Bytes = d ∷ ds in
    let raw : Bytes = registry ++ b'/' ∷ name in
    let front : IsWithout b'@' raw =
      IsWithout-append b'@' registry _ c.host_plain ((λ x. omega arith), c.name_plain) in
    rw
      (
        index_byte-append b'@' raw digest front,
        take-append_self raw (b'@' ∷ digest),
        drop-append_past (suc (length raw)) 1 raw (b'@' ∷ digest) (omega arith),
      )
      (without_digest_lem registry name [] digest name c.host c.named refl refl)

abbrev Reads : Reference → Type 0
Reads r = parse_reference (to_string r) ≡ parsed r

-- A reference that ParseReference can read as it is printed, with a tag or with a digest, is
-- parsed from its text as itself.
pub parse_reference-to_string :
    (r : Reference) → IsCanonical r → parse_reference (to_string r) ≡ parsed r
parse_reference-to_string r c = elim c.pointed [
  | inl (d, e, s, k, a) ↦
      subst (λ x. IsCanonical (record r { digest = x }) → Reads (record r { digest = x })) (sym d)
        (λ c'. tagged r.registry r.repository r.tag c' e s k a) c
  | inr (t, e) ↦
      subst (λ x. IsCanonical (record r { tag = x }) → Reads (record r { tag = x })) (sym t)
        (λ c'. pinned r.registry r.repository r.digest c' e) c
]
