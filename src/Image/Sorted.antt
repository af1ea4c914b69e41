-- ===== src/Image/Sorted.antt =====
-- sortedPaths (pkg/lib/container/image/pathindex.go): in order, and exactly the indexed paths.
use sandal.Prelude.{
  ℕ, ◌≡◌, refl, Bool, true, false, ◌||◌, Option, none, some, List, [], ◌∷◌, arith, ◌∙◌, ap,
  Bool-cases, inl, inr,
}
use sandal.Prelude.Words.{Bytes}
use sandal.Prelude.Text.{equal, equal_iff}
use sandal.Image.PathIndex.{
  lookup, less, insert_sorted, sort_strings, keys, sorted_paths, record_all,
}
use sandal.Image.Whiteout.{history, lookup-record_all, IsUnique, record_all-IsUnique}

less_asymm : (s t : Bytes) → less s t ≡ true → less t s ≡ false
unfolding less
less_asymm s [] h = cc
less_asymm [] (y ∷ t) h = refl
less_asymm (x ∷ s) (y ∷ t) h = ground (arith, less_asymm s t)

-- No string is less than the one before it.
abbrev IsSorted : List Bytes → Type 0
IsSorted [] = Unit
IsSorted (k ∷ []) = Unit
IsSorted (k ∷ j ∷ ks) = (less j k ≡ false) × IsSorted (j ∷ ks)

insert_sorted-IsSorted : (k : Bytes) (ks : List Bytes) → IsSorted ks → IsSorted (insert_sorted k ks)
unfolding insert_sorted
insert_sorted-IsSorted k [] h = tt
insert_sorted-IsSorted k (j ∷ []) h = elim (Bool-cases (less j k)) [
  | inl e ↦ rw e (less_asymm j k e, tt)
  | inr e ↦ rw e (e, tt)
]
insert_sorted-IsSorted k (j ∷ i ∷ ks) h = elim (Bool-cases (less j k)) [
  | inl e ↦ elim (Bool-cases (less i k)) [
    | inl d ↦ rw (e, d) (h.0, rw d at (insert_sorted-IsSorted k (i ∷ ks) h.1))
    | inr d ↦ rw (e, d) (less_asymm j k e, (d, h.1))
  ]
  | inr e ↦ rw e (e, h)
]

sort_strings-IsSorted : (ks : List Bytes) → IsSorted (sort_strings ks)
unfolding sort_strings
sort_strings-IsSorted [] = tt
sort_strings-IsSorted (k ∷ ks) =
    insert_sorted-IsSorted k (sort_strings ks) (sort_strings-IsSorted ks)

abbrev pub contains : Bytes → List Bytes → Bool
contains q [] = false
contains q (k ∷ ks) = equal k q || contains q ks

abbrev pub is_some {ℓ} : {A : Type ℓ} → Option A → Bool
is_some none = false
is_some (some a) = true

contains-insert_sorted :
    (q k : Bytes) (ks : List Bytes) → contains q (insert_sorted k ks) ≡ equal k q || contains q ks
unfolding insert_sorted
contains-insert_sorted q k [] = refl
contains-insert_sorted q k (j ∷ ks) = ground (arith, contains-insert_sorted q k ks)

contains-sort_strings : (q : Bytes) (ks : List Bytes) → contains q (sort_strings ks) ≡ contains q ks
unfolding sort_strings
contains-sort_strings q [] = refl
contains-sort_strings q (k ∷ ks) =
    contains-insert_sorted q k (sort_strings ks)
    ∙ ap (λ b. equal k q || b) (contains-sort_strings q ks)

contains-keys {ℓ} :
    {V : Type ℓ} (q : Bytes) (m : List (Bytes × V)) → contains q (keys m) ≡ is_some (lookup q m)
unfolding keys lookup
contains-keys q [] = refl
contains-keys q ((k, v) ∷ m) = ground (arith, contains-keys q m)

-- Each string is less than the one behind it.
abbrev pub IsAscending : List Bytes → Type 0
IsAscending [] = Unit
IsAscending (k ∷ []) = Unit
IsAscending (k ∷ j ∷ ks) = (less k j ≡ true) × IsAscending (j ∷ ks)

-- No string occurs twice.
abbrev IsDistinct : List Bytes → Type 0
IsDistinct [] = Unit
IsDistinct (k ∷ ks) = (contains k ks ≡ false) × IsDistinct ks

less_total : (s t : Bytes) → less s t ≡ false → equal s t ≡ false → less t s ≡ true
unfolding less equal
less_total [] [] h e = cc
less_total [] (y ∷ t) h e = cc
less_total (x ∷ s) [] h e = refl
less_total (x ∷ s) (y ∷ t) h e = ground (arith, less_total s t)

equal_comm : (s t : Bytes) → equal s t ≡ equal t s
equal_comm s t = ground (arith, equal_iff s t, equal_iff t s)

insert_sorted-IsDistinct :
    (k : Bytes) (ks : List Bytes)
    → contains k ks ≡ false
    → IsDistinct ks
    → IsDistinct (insert_sorted k ks)
unfolding insert_sorted
insert_sorted-IsDistinct k [] n d = (refl, tt)
insert_sorted-IsDistinct k (j ∷ ks) n (m, d) = elim (Bool-cases (less j k)) [
  | inl e ↦ rw e (
    contains-insert_sorted j k ks ∙ ground (arith, n, m, equal_comm j k),
    insert_sorted-IsDistinct k ks (ground (arith, n)) d,
  )
  | inr e ↦ rw e (n, (m, d))
]

sort_strings-IsDistinct : (ks : List Bytes) → IsDistinct ks → IsDistinct (sort_strings ks)
unfolding sort_strings
sort_strings-IsDistinct [] d = tt
sort_strings-IsDistinct (k ∷ ks) (n, d) =
    insert_sorted-IsDistinct k (sort_strings ks) (contains-sort_strings k ks ∙ n)
      (sort_strings-IsDistinct ks d)

IsSorted-IsAscending : (ks : List Bytes) → IsSorted ks → IsDistinct ks → IsAscending ks
IsSorted-IsAscending [] h d = tt
IsSorted-IsAscending (k ∷ []) h d = tt
IsSorted-IsAscending (k ∷ j ∷ ks) (h, hs) (n, d) =
    (less_total j k h (ground (arith, n, equal_comm j k)), IsSorted-IsAscending (j ∷ ks) hs d)

keys-IsDistinct {ℓ} : {V : Type ℓ} (m : List (Bytes × V)) → IsUnique m → IsDistinct (keys m)
unfolding keys
keys-IsDistinct [] u = tt
keys-IsDistinct ((k, v) ∷ m) (n, u) = (contains-keys k m ∙ ap is_some n, keys-IsDistinct m u)

-- After any headers, sortedPaths lists in strictly ascending order, so each once, exactly the paths
-- that the headers, read in stream order, leave in the view: of each path what the last header says
-- that says something of it, as `said` has it. An opaque marker removes what is below its
-- directory, a whiteout its path and what is below it, and an entry of a tracked type adds its path.
pub sorted_paths-record_all :
    (headers : List (Bytes × ℕ)) (q : Bytes)
    → IsAscending (sorted_paths (record_all headers []))
      × (contains q (sorted_paths (record_all headers [])) ≡ is_some (history headers q none))
unfolding sorted_paths
sorted_paths-record_all headers q =
    let m = record_all headers [] in
    (
      IsSorted-IsAscending _ (sort_strings-IsSorted (keys m)) (
          sort_strings-IsDistinct (keys m) (keys-IsDistinct m (record_all-IsUnique headers [] tt))),
      contains-sort_strings q (keys m)
          ∙ contains-keys q m
          ∙ ap is_some
              (lookup-record_all headers q [] ∙ ap (history headers q) (unfold lookup in refl)),
    )
