-- ===== src/Image/PathIndex.antt =====
-- The set of paths of the merged view: pkg/lib/container/image/pathindex.go. The Go map is a list
-- of pairs with one pair for each key.
use sandal.Prelude.{
  ℕ, ◌+◌, Bool, true, false, ◌&&◌, ◌||◌, Option, none, some, List, [], ◌∷◌, ◌++◌, ◌==◌,
  if◌then◌else◌, drop, ltb,
}
use sandal.Prelude.Words.{Bytes}
use sandal.Prelude.Text.{codes, equal, has_prefix}
use sandal.Image.Path.{clean_path, dir, base, join}

module _ {ℓ} {V : Type ℓ} where
  -- m[k]
  unfoldable pub lookup : Bytes → List (Bytes × V) → Option V
  unfolding equal
  lookup k [] = none
  lookup k ((j, v) ∷ m) = if equal j k then some v else lookup k m

  -- m[k] = v
  unfoldable pub insert : Bytes → V → List (Bytes × V) → List (Bytes × V)
  unfolding equal
  insert k v [] = (k, v) ∷ []
  insert k v ((j, w) ∷ m) = if equal j k then (k, v) ∷ m else (j, w) ∷ insert k v m

  -- for k := range m { if p(k) { delete(m, k) } }
  unfoldable pub delete_where : (Bytes → Bool) → List (Bytes × V) → List (Bytes × V)
  delete_where p [] = []
  delete_where p ((j, w) ∷ m) = let rest = delete_where p m in if p j then rest else (j, w) ∷ rest

abbrev pub Paths : Type 0
Paths = List (Bytes × ℕ)

-- Is `k` strictly below the directory `target`?
abbrev pub is_below : Bytes → Bytes → Bool
is_below target k = has_prefix k (target ++ b'/' ∷ [])

-- removeDescendants: an empty target stands for the root.
unfoldable pub remove_descendants : Bytes → Paths → Paths
remove_descendants [] m = delete_where (λ k. true) m
remove_descendants (c ∷ cs) m = delete_where (is_below (c ∷ cs)) m

-- removeTree
unfoldable pub remove_tree : Bytes → Paths → Paths
remove_tree target m = remove_descendants target (delete_where (λ k. equal k target) m)

-- What a tar header means for the index.
pub data Action : Type 0 where
  ignore : Action
  opaque : Bytes → Action
  whiteout : Bytes → Action
  add : Bytes → ℕ → Action

-- tar.TypeReg, TypeSymlink, TypeLink and TypeDir
abbrev pub is_tracked : ℕ → Bool
is_tracked t = t == b'0' || t == b'2' || t == b'1' || t == b'5'

abbrev pub root_if_dot : Bytes → Bytes
root_if_dot d = if equal d (codes ".") then [] else d

unfoldable pub classify : Bytes → ℕ → Action
classify name t =
    if equal name []
    then ignore
    else if equal (base name) (codes ".wh..wh..opq")
    then opaque (root_if_dot (dir name))
    else if has_prefix (base name) (codes ".wh.")
    then whiteout (join (dir name) (drop 4 (base name)))
    else if is_tracked t
    then add name t
    else ignore

unfoldable pub apply : Action → Paths → Paths
apply ignore m = m
apply (opaque target) m = remove_descendants target m
apply (whiteout target) m = remove_tree target m
apply (add name t) m = insert name t m

-- pathIndex.record, on a header's name and type.
unfoldable pub record_header : Bytes → ℕ → Paths → Paths
unfolding classify apply
record_header name t m = apply (classify (clean_path name) t) m

unfoldable pub record_all : List (Bytes × ℕ) → Paths → Paths
record_all [] m = m
record_all ((name, t) ∷ rest) m = record_all rest (record_header name t m)

-- countRegularFiles
unfoldable pub count_regular_files : Paths → ℕ
count_regular_files [] = 0
count_regular_files ((k, t) ∷ m) = count_regular_files m + (if t == b'0' || t == b'1' then 1 else 0)

-- s < t on Go strings
unfoldable pub less : Bytes → Bytes → Bool
less s [] = false
less [] (y ∷ ys) = true
less (x ∷ xs) (y ∷ ys) = ltb x y || x == y && less xs ys

-- sort.Strings, as an insertion sort.
unfoldable pub insert_sorted : Bytes → List Bytes → List Bytes
unfolding less
insert_sorted k [] = k ∷ []
insert_sorted k (j ∷ ks) = if less j k then j ∷ insert_sorted k ks else k ∷ j ∷ ks

unfoldable pub sort_strings : List Bytes → List Bytes
unfolding insert_sorted
sort_strings [] = []
sort_strings (k ∷ ks) = insert_sorted k (sort_strings ks)

unfoldable pub keys {ℓ} : {V : Type ℓ} → List (Bytes × V) → List Bytes
keys [] = []
keys ((k, v) ∷ m) = k ∷ keys m

-- sortedPaths
unfoldable pub sorted_paths : Paths → List Bytes
unfolding sort_strings keys
sorted_paths m = sort_strings (keys m)
