-- ===== src/Image/Opaque.antt =====
-- Opaque markers, on which Flatten (pkg/lib/container/image/flatten.go) and the path index
-- (pathindex.go) do not agree.
use sandal.Prelude.{
  ℕ, ◌≡◌, refl, Bool, true, false, not, ◌&&◌, ◌||◌, Option, none, some, [], ◌∷◌, if◌then◌else◌,
  arith, ◌∙◌,
}
use sandal.Prelude.Words.{Bytes}
use sandal.Prelude.Text.{codes, equal}
use sandal.Image.Path.{clean_path, dir, base}
use sandal.Image.PathIndex.{
  lookup, delete_where, Paths, is_below, classify, record_header, root_if_dot,
}
use sandal.Image.Whiteout.{lookup-delete_where, lookup-apply, hides}
use sandal.Image.Layers.{dir-ne-nil, hides_lem}
use sandal.Image.Flatten.{Header, Merge, merge_entry, in_layer}

abbrev marker : Bytes
marker = codes ".wh..wh..opq"

base-nil-ne-marker : equal (base []) marker ≡ false
unfolding base equal
base-nil-ne-marker = refl

marker-ne-nil : (n : Bytes) → equal (base n) marker ≡ true → equal n [] ≡ false
unfolding equal
marker-ne-nil [] h = cc (base-nil-ne-marker)
marker-ne-nil (c ∷ cs) h = refl

record-marker :
    (name : Bytes) (t : ℕ) (m : Paths) (q : Bytes)
    → equal (base (clean_path name)) marker ≡ true
    → hides (root_if_dot (dir (clean_path name))) q ≡ true
    → lookup q (record_header name t m) ≡ none
unfolding record_header
record-marker name t m q mark hidden =
    lookup-apply (classify (clean_path name) t) q m
    ∙ unfold classify in ground (arith, marker-ne-nil (clean_path name) mark)

lookup-merge-marker :
    (h : Header) (read : Option Bytes) (s : Merge) (q : Bytes)
    → equal (base (clean_path h.name)) marker ≡ true
    → (t : Merge) × (merge_entry h read s ≡ some t)
      × (lookup q t.files ≡ (
          if (equal q (dir (clean_path h.name)) || is_below (dir (clean_path h.name)) q)
            && not (in_layer q s.current)
          then none
          else lookup q s.files))
unfolding merge_entry
lookup-merge-marker h read s q mark =
    let d : Bytes = dir (clean_path h.name) in
    let p : Bytes → Bool = λ k. (equal k d || is_below d k) && not (in_layer k s.current) in
    (record s { files = delete_where p s.files }, ground arith, lookup-delete_where p q s.files)

-- A path that the layer itself added below the directory before the directory's opaque marker: in
-- the merge of Flatten it stays as it was, and the path index drops it.
pub opaque_same_layer :
    (h : Header) (read : Option Bytes) (s : Merge) (m : Paths) (q : Bytes)
    → equal (base (clean_path h.name)) marker ≡ true
    → equal (dir (clean_path h.name)) (codes ".") ≡ false
    → is_below (dir (clean_path h.name)) q ≡ true
    → in_layer q s.current ≡ true
    → (t : Merge) × (merge_entry h read s ≡ some t)
      × (lookup q t.files ≡ lookup q s.files)
      × (lookup q (record_header h.name h.typeflag m) ≡ none)
opaque_same_layer h read s m q mark inner below added =
    let d : Bytes = dir (clean_path h.name) in
    let (t, e, l) = lookup-merge-marker h read s q mark in
    (
      t,
      e,
      l ∙ rw (added, below) (ground arith),
      record-marker h.name h.typeflag m q mark
          (rw inner (hides_lem d q (dir-ne-nil (clean_path h.name)) ∙ below)),
    )

-- An opaque marker in the root directory: the path index drops every path, and the merge of
-- Flatten drops none that is spelled as cleanPath spells it (not `.`, and not below `./`).
pub opaque_root :
    (h : Header) (read : Option Bytes) (s : Merge) (m : Paths) (q : Bytes)
    → equal (base (clean_path h.name)) marker ≡ true
    → dir (clean_path h.name) ≡ codes "."
    → equal q (codes ".") ≡ false
    → is_below (codes ".") q ≡ false
    → (t : Merge) × (merge_entry h read s ≡ some t)
      × (lookup q t.files ≡ lookup q s.files)
      × (lookup q (record_header h.name h.typeflag m) ≡ none)
opaque_root h read s m q mark root plain inside =
    let (t, e, l) = lookup-merge-marker h read s q mark in
    (
      t,
      e,
      l ∙ rw root (rw (plain, inside)),
      record-marker h.name h.typeflag m q mark (rw root (unfold equal in refl)),
    )
