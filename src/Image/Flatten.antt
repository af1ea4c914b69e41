-- ===== src/Image/Flatten.antt =====
-- Merging layers into one tar stream: pkg/lib/container/image/flatten.go. A layer is the list of
-- what tar.Reader.Next returns; what is written is the list of headers and bodies given to the tar
-- writer. Errors of the writer are not modelled.
use sandal.Prelude.{
  ℕ, ◌+◌, Bool, false, not, ◌&&◌, ◌||◌, Option, none, some, List, [], ◌∷◌, ◌==◌, if◌then◌else◌,
  drop, ltb,
}
use sandal.Prelude.Words.{Bytes}
use sandal.Prelude.Text.{codes, equal, has_prefix}
use sandal.Image.Path.{clean_path, dir, base, join}
use sandal.Image.PathIndex.{lookup, insert, delete_where, is_below, keys, sort_strings}

pub record Header : Type 0 where
  pub name : Bytes
  pub typeflag : ℕ
  pub size : ℕ

-- fileEntry
pub record FileEntry : Type 0 where
  pub header : Header
  pub body : Bytes
  pub order : ℕ

-- A result of tr.Next other than io.EOF: an error, or a header with what io.ReadAll gives for it,
-- which is `none` for an error.
pub data Next : Type 0 where
  failure : Next
  entry : Header → Option Bytes → Next

abbrev pub Files : Type 0
Files = List (Bytes × FileEntry)

pub record Merge : Type 0 where
  pub files : Files
  pub order : ℕ
  pub current : List Bytes  -- currentLayerPaths

abbrev pub in_layer : Bytes → List Bytes → Bool
in_layer p [] = false
in_layer p (k ∷ ks) = equal k p || in_layer p ks

unfoldable pub add_file : Bytes → Header → Bytes → Merge → Merge
add_file name h body s = record {
  files = insert name (record { header = h; body = body; order = s.order }) s.files;
  order = s.order + 1;
  current = name ∷ s.current;
}

-- The end of the loop's body: the body is read of regular files that are not empty.
read_and_add : Bytes → Header → Option Bytes → Merge → Option Merge
unfolding add_file
read_and_add name h read s =
    if h.typeflag == b'0' && ltb 0 h.size
    then elim read [ none ↦ none | some body ↦ some (add_file name h body s) ]
    else some (add_file name h [] s)

-- A round of the loop over a layer; `none` where it returns an error.
unfoldable pub merge_entry : Header → Option Bytes → Merge → Option Merge
unfolding read_and_add
merge_entry h read s =
    let name = clean_path h.name in
    let d = dir name in
    if equal (base name) (codes ".wh..wh..opq")
    then some (record s {
      files = delete_where (λ p. (equal p d || is_below d p) && not (in_layer p s.current)) s.files;
    })
    else if has_prefix (base name) (codes ".wh.")
    then (let target = join d (drop 4 (base name)) in
        some (record s {
          files = delete_where (is_below target) (delete_where (λ p. equal p target) s.files);
        }))
    else if equal name []
    then some s
    else read_and_add name h read s

unfoldable pub merge_layer : List Next → Merge → Option Merge
merge_layer [] s = some s
merge_layer (failure ∷ rest) s = none
merge_layer (entry h read ∷ rest) s = elim (merge_entry h read s) [
  | none ↦ none
  | some t ↦ merge_layer rest t
]

unfoldable pub merge_layers : List (List Next) → Merge → Option Merge
merge_layers [] s = some s
merge_layers (layer ∷ layers) s = elim (merge_layer layer (record s { current = [] })) [
  | none ↦ none
  | some t ↦ merge_layers layers t
]

-- The headers and bodies that are written, each under its clean name.
write_entries : Files → List Bytes → List (Header × Bytes)
write_entries files [] = []
write_entries files (p ∷ ps) =
    let rest = write_entries files ps in
    elim (lookup p files) [ none ↦ rest | some e ↦ (record (e.header) { name = p }, e.body) ∷ rest ]

-- Flatten
unfoldable pub flatten : List (List Next) → Option (List (Header × Bytes))
unfolding write_entries
flatten layers = elim (merge_layers layers (record { files = []; order = 0; current = [] })) [
  | none ↦ none
  | some s ↦ some (write_entries s.files (sort_strings (keys s.files)))
]
