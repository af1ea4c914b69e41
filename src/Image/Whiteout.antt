-- ===== src/Image/Whiteout.antt =====
-- What whiteouts do to the path index (pkg/lib/container/image/pathindex.go), path by path.
use sandal.Prelude.{
  ℕ, ◌≡◌, refl, Bool, true, false, ◌||◌, ◌&&◌, Option, none, some, List, [], ◌∷◌, ◌++◌, ◌==◌,
  if◌then◌else◌, arith, ◌∙◌, ap, drop, Bool-cases, inl, inr,
}
use sandal.Prelude.Words.{Bytes}
use sandal.Prelude.Text.{codes, equal, equal_iff, has_prefix}
use sandal.Image.Path.{clean_path, dir, base, join}
use sandal.Image.PathIndex.{
  lookup, insert, delete_where, Paths, is_below, remove_descendants, remove_tree, Action, ignore,
  opaque, whiteout, add, classify, apply, record_header, record_all,
}

module _ {ℓ} {V : Type ℓ} where
  pub lookup-insert :
      (k j : Bytes) (v : V) (m : List (Bytes × V))
      → lookup j (insert k v m) ≡ (if equal k j then some v else lookup j m)
  unfolding lookup insert
  lookup-insert k j v [] = refl
  lookup-insert k j v ((i, w) ∷ m) =
      ground (arith, equal_iff k j, equal_iff i k, equal_iff i j, lookup-insert k j v m)

  pub lookup-delete_where :
      (p : Bytes → Bool) (j : Bytes) (m : List (Bytes × V))
      → lookup j (delete_where p m) ≡ (if p j then none else lookup j m)
  unfolding lookup delete_where
  lookup-delete_where p j [] = ground arith
  lookup-delete_where p j ((i, w) ∷ m) = ground (arith, equal_iff i j, lookup-delete_where p j m)

-- The paths that a whiteout of `target` hides: below it, or all if it is the root.
abbrev pub hides : Bytes → Bytes → Bool
hides [] q = true
hides (c ∷ cs) q = is_below (c ∷ cs) q

lookup-remove_descendants :
    (target q : Bytes) (m : Paths)
    → lookup q (remove_descendants target m) ≡ (if hides target q then none else lookup q m)
unfolding remove_descendants
lookup-remove_descendants [] q m = lookup-delete_where (λ k. true) q m
lookup-remove_descendants (c ∷ cs) q m = lookup-delete_where (is_below (c ∷ cs)) q m

-- What one header does to one path of the merged view, given what the view said of it before.
abbrev pub effect : Action → Bytes → Option ℕ → Option ℕ
effect ignore q before = before
effect (opaque target) q before = if hides target q then none else before
effect (whiteout target) q before = if hides target q || equal q target then none else before
effect (add name t) q before = if equal name q then some t else before

pub lookup-apply :
    (a : Action) (q : Bytes) (m : Paths) → lookup q (apply a m) ≡ effect a q (lookup q m)
unfolding apply remove_tree
lookup-apply ignore q m = refl
lookup-apply (opaque target) q m = lookup-remove_descendants target q m
lookup-apply (whiteout target) q m =
    lookup-remove_descendants target q (delete_where (λ k. equal k target) m)
    ∙ ground (arith, lookup-delete_where (λ k. equal k target) q m)
lookup-apply (add name t) q m = lookup-insert name q t m

-- What a header of the clean name `n` says of a path, written out: an opaque marker empties its
-- directory, `.wh.x` takes x and what is below it away, and an entry of a regular file, a link or a
-- directory is the path itself.
abbrev is_under : Bytes → Bytes → Bool
is_under d q = equal d [] || has_prefix q (d ++ b'/' ∷ [])

abbrev or_root : Bytes → Bytes
or_root d = if equal d (b'.' ∷ []) then [] else d

abbrev pub said : Bytes → ℕ → Bytes → Option ℕ → Option ℕ
said n t q before =
    if equal n []
    then before
    else if equal (base n) (codes ".wh..wh..opq")
    then (if is_under (or_root (dir n)) q then none else before)
    else if has_prefix (base n) (codes ".wh.")
    then (if equal q (join (dir n) (drop 4 (base n))) || is_under (join (dir n) (drop 4 (base n))) q
        then none
        else before)
    else if equal n q && (t == b'0' || t == b'1' || t == b'2' || t == b'5')
    then some t
    else before

hides-is_under : (d q : Bytes) → hides d q ≡ is_under d q
unfolding equal
hides-is_under [] q = refl
hides-is_under (c ∷ cs) q = refl

effect-classify :
    (n : Bytes) (t : ℕ) (q : Bytes) (before : Option ℕ)
    → effect (classify n t) q before ≡ said n t q before
unfolding classify
effect-classify n t q before =
    ground
      (arith, hides-is_under (or_root (dir n)) q, hides-is_under (join (dir n) (drop 4 (base n))) q)

-- The merged view by its history: each path's last word.
abbrev pub history : List (Bytes × ℕ) → Bytes → Option ℕ → Option ℕ
history [] q before = before
history ((name, t) ∷ rest) q before = history rest q (said (clean_path name) t q before)

pub lookup-record_all :
    (headers : List (Bytes × ℕ)) (q : Bytes) (m : Paths)
    → lookup q (record_all headers m) ≡ history headers q (lookup q m)
unfolding record_all record_header
lookup-record_all [] q m = refl
lookup-record_all ((name, t) ∷ rest) q m =
    lookup-record_all rest q _
    ∙ ap (history rest q) (
        lookup-apply (classify (clean_path name) t) q m
        ∙ effect-classify (clean_path name) t q (lookup q m))

-- A map with one pair for each key.
abbrev pub IsUnique {ℓ} : {V : Type ℓ} → List (Bytes × V) → Type ℓ
IsUnique [] = Unit
IsUnique ((k, v) ∷ m) = (lookup k m ≡ none) × IsUnique m

insert-IsUnique {ℓ} :
    {V : Type ℓ} (k : Bytes) (v : V) (m : List (Bytes × V)) → IsUnique m → IsUnique (insert k v m)
unfolding insert lookup
insert-IsUnique k v [] u = (refl, tt)
insert-IsUnique k v ((j, w) ∷ m) (n, u) = elim (Bool-cases (equal j k)) [
  | inl e ↦ rw e (rw ((equal_iff j k).0 e) at n, u)
  | inr e ↦ rw e (
    lookup-insert k j v m
        ∙ (let f : equal k j ≡ false = ground (arith, equal_iff j k, equal_iff k j) in rw f n),
    insert-IsUnique k v m u,
  )
]

delete_where-IsUnique {ℓ} :
    {V : Type ℓ} (p : Bytes → Bool) (m : List (Bytes × V))
    → IsUnique m
    → IsUnique (delete_where p m)
unfolding delete_where
delete_where-IsUnique p [] u = tt
delete_where-IsUnique p ((j, w) ∷ m) (n, u) = elim (Bool-cases (p j)) [
  | inl e ↦ rw e (delete_where-IsUnique p m u)
  | inr e ↦ rw e (lookup-delete_where p j m ∙ rw e n, delete_where-IsUnique p m u)
]

remove_descendants-IsUnique :
    (target : Bytes) (m : Paths) → IsUnique m → IsUnique (remove_descendants target m)
unfolding remove_descendants
remove_descendants-IsUnique [] m u = delete_where-IsUnique (λ k. true) m u
remove_descendants-IsUnique (c ∷ cs) m u = delete_where-IsUnique (is_below (c ∷ cs)) m u

apply-IsUnique : (a : Action) (m : Paths) → IsUnique m → IsUnique (apply a m)
unfolding apply remove_tree
apply-IsUnique ignore m u = u
apply-IsUnique (opaque target) m u = remove_descendants-IsUnique target m u
apply-IsUnique (whiteout target) m u =
    remove_descendants-IsUnique target _ (delete_where-IsUnique (λ k. equal k target) m u)
apply-IsUnique (add name t) m u = insert-IsUnique name t m u

pub record_all-IsUnique :
    (headers : List (Bytes × ℕ)) (m : Paths) → IsUnique m → IsUnique (record_all headers m)
unfolding record_all record_header
record_all-IsUnique [] m u = u
record_all-IsUnique ((name, t) ∷ rest) m u =
    record_all-IsUnique rest _ (apply-IsUnique (classify (clean_path name) t) m u)
