-- ===== src/Tests/ImageRuns.antt =====
-- Layers with whiteouts through both readers of pkg/lib/container/image.
use sandal.Prelude.{ℕ, ◌≡◌, refl, true, false, some, none, List, [], ◌∷◌, All}
use sandal.Prelude.Words.{Bytes}
use sandal.Prelude.Text.{codes, equal, has_prefix}
use sandal.Image.Path.{clean, clean_path, dir, base, join}
use sandal.Image.PathIndex.{
  lookup, keys, sort_strings, insert, delete_where, remove_descendants, remove_tree, is_below,
  record_header, record_all, sorted_paths, count_regular_files,
}
use sandal.Image.Whiteout.{history}
use sandal.Image.Sorted.{IsAscending, contains, is_some, sorted_paths-record_all}
use sandal.Image.Flatten.{
  Header, Next, entry, Merge, merge_entry, merge_layer, merge_layers, flatten,
}
use sandal.Image.Layers.{Agree, IsPlain, all_headers, merge_layers-Agree}
use sandal.Image.Opaque.{opaque_same_layer, opaque_root}

cleans :
    (clean_path (codes "./usr//lib/../bin/") ≡ codes "usr/bin")
    × (clean_path (codes "/") ≡ [])
    × (clean (codes "../a/./b") ≡ codes "../a/b")
    × (dir (codes "a/b/c") ≡ codes "a/b")
    × (base (codes "a/b//") ≡ codes "b")
    × (join (codes "a/b") (codes "..") ≡ codes "a")
unfolding clean_path clean dir base join
cleans = (refl, refl, refl, refl, refl, refl)

abbrev stream : List (Bytes × ℕ)
stream =
    (codes "etc/", b'5')
    ∷ (codes "etc/passwd", b'0')
    ∷ (codes "bin", b'5')
    ∷ (codes "./etc/.wh.passwd", b'0')
    ∷ (codes "bin/sh", b'2')
    ∷ []

indexes :
    (sorted_paths (record_all stream []) ≡ codes "bin" ∷ codes "bin/sh" ∷ codes "etc" ∷ [])
    × (count_regular_files (record_all stream []) ≡ 0)
unfolding sorted_paths record_all record_header clean_path clean dir base join equal has_prefix
    insert delete_where remove_tree remove_descendants count_regular_files
indexes = (refl, refl)

sorted_paths-record_all_example :
    IsAscending (sorted_paths (record_all stream []))
    × (contains (codes "bin/sh") (sorted_paths (record_all stream []))
        ≡ is_some (history stream (codes "bin/sh") none))
sorted_paths-record_all_example = sorted_paths-record_all stream (codes "bin/sh")

abbrev file : Bytes → Next
file name = entry (record { name = name; typeflag = b'0'; size = 1 }) (some (7 ∷ []))

abbrev image : List (List Next)
image =
    (file (codes "a/x") ∷ file (codes "b") ∷ [])
    ∷ (file (codes "a/.wh.x") ∷ file (codes "c") ∷ [])
    ∷ []

flattens :
    flatten image
    ≡ some (
        (record { name = codes "b"; typeflag = b'0'; size = 1 }, 7 ∷ [])
        ∷ (record { name = codes "c"; typeflag = b'0'; size = 1 }, 7 ∷ [])
        ∷ [])
unfolding flatten merge_layers merge_layer merge_entry clean_path clean dir base join equal
    has_prefix delete_where lookup insert sort_strings keys
flattens = refl

image-IsPlain : All (All IsPlain) image
unfolding clean_path base equal
image-IsPlain = (((refl, refl), ((refl, refl), tt)), (((refl, refl), ((refl, refl), tt)), tt))

abbrev start : Merge
start = record { files = []; order = 0; current = [] }

start-Agree : Agree start.files []
unfolding lookup
start-Agree q = refl

merge_layers-Agree_example :
    (t : Merge) × (merge_layers image start ≡ some t)
    × Agree t.files (record_all (all_headers image) [])
merge_layers-Agree_example = merge_layers-Agree image start [] image-IsPlain start-Agree

abbrev opaque_a : Header
opaque_a = record { name = codes "a/.wh..wh..opq"; typeflag = b'0'; size = 0 }

abbrev with_x : Merge
with_x = record {
  files = (codes "a/x", record { header = opaque_a; body = []; order = 0 }) ∷ [];
  order = 1;
  current = codes "a/x" ∷ [];
}

marker_a :
    (equal (base (clean_path opaque_a.name)) (codes ".wh..wh..opq") ≡ true)
    × (equal (dir (clean_path opaque_a.name)) (codes ".") ≡ false)
    × (is_below (dir (clean_path opaque_a.name)) (codes "a/x") ≡ true)
    × (equal (codes "a/x") (codes "a/x") ≡ true)
unfolding clean_path clean base dir equal has_prefix
marker_a = (refl, refl, refl, refl)

x_added : equal (codes "a/x") (codes "a/x") ≡ true
unfolding equal
x_added = refl

opaque_same_layer_example :
    (t : Merge) × (merge_entry opaque_a none with_x ≡ some t)
    × (lookup (codes "a/x") t.files ≡ lookup (codes "a/x") with_x.files)
    × (lookup
          (codes "a/x")
          (record_header opaque_a.name opaque_a.typeflag ((codes "a/x", b'0') ∷ []))
        ≡ none)
opaque_same_layer_example =
    opaque_same_layer opaque_a none with_x ((codes "a/x", b'0') ∷ []) (codes "a/x") marker_a.0
      marker_a.1 marker_a.2 (rw x_added refl)

abbrev opaque_top : Header
opaque_top = record { name = codes ".wh..wh..opq"; typeflag = b'0'; size = 0 }

marker_top :
    (equal (base (clean_path opaque_top.name)) (codes ".wh..wh..opq") ≡ true)
    × (dir (clean_path opaque_top.name) ≡ codes ".")
    × (equal (codes "a/x") (codes ".") ≡ false)
    × (is_below (codes ".") (codes "a/x") ≡ false)
unfolding clean_path clean base dir equal has_prefix
marker_top = (refl, refl, refl, refl)

opaque_root_example :
    (t : Merge) × (merge_entry opaque_top none with_x ≡ some t)
    × (lookup (codes "a/x") t.files ≡ lookup (codes "a/x") with_x.files)
    × (lookup
          (codes "a/x")
          (record_header opaque_top.name opaque_top.typeflag ((codes "a/x", b'0') ∷ []))
        ≡ none)
opaque_root_example =
    opaque_root opaque_top none with_x ((codes "a/x", b'0') ∷ []) (codes "a/x") marker_top.0
      marker_top.1 marker_top.2 marker_top.3
