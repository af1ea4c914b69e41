-- ===== src/Image/Layers.antt =====
-- Flatten (pkg/lib/container/image/flatten.go) against the path index (pathindex.go): where the two
-- readings of whiteouts agree, and where they do not.
use sandal.Prelude.{
  ℕ, suc, ◌≡◌, ◌≢◌, refl, true, false, ◌&&◌, none, some, List, [], ◌∷◌, ◌++◌, ◌==◌, if◌then◌else◌,
  arith, ◌∙◌, ap, sym, Bool-cases, inl, inr, drop, All, take, ltb, Option-cases,
}
use sandal.Prelude.Words.{Bytes}
use sandal.Prelude.Text.{codes, equal, equal_iff, has_prefix, last_index_byte}
use sandal.Image.Path.{clean_path, dir, base, join, clean, or_dot}
use sandal.Image.PathIndex.{
  lookup, delete_where, Paths, is_below, is_tracked, classify, record_header, record_all,
}
use sandal.Image.Whiteout.{lookup-insert, lookup-delete_where, lookup-apply, effect, hides}
use sandal.Image.Sorted.{is_some}
use sandal.Image.Flatten.{
  Header, FileEntry, Next, failure, entry, Files, Merge, add_file, merge_entry, merge_layer,
  merge_layers,
}

clean-ne-nil : (p : Bytes) → clean p ≢ []
unfolding clean
clean-ne-nil p = or_dot-ne-nil _
  where
    or_dot-ne-nil : (b : Bytes) → or_dot b ≢ []
    or_dot-ne-nil [] = λ e. cc
    or_dot-ne-nil (c ∷ cs) = λ e. cc

join-ne-nil : (c : ℕ) (cs d : Bytes) → join (c ∷ cs) d ≢ []
unfolding join
join-ne-nil c cs [] = clean-ne-nil (c ∷ cs)
join-ne-nil c cs (e ∷ es) = clean-ne-nil ((c ∷ cs) ++ b'/' ∷ e ∷ es)

pub dir-ne-nil : (p : Bytes) → dir p ≢ []
unfolding dir
dir-ne-nil p = elim (Option-cases (last_index_byte p b'/')) [
  | inl e ↦ rw (e, dir) (clean-ne-nil [])
  | inr (i, e) ↦ rw (e, dir) (clean-ne-nil (take (suc i) p))
]

pub hides_lem : (target q : Bytes) → target ≢ [] → hides target q ≡ is_below target q
hides_lem [] q h = absurd (h refl)
hides_lem (c ∷ cs) q h = refl

join_of-ne-nil : (d x : Bytes) → d ≢ [] → join d x ≢ []
join_of-ne-nil [] x h = absurd (h refl)
join_of-ne-nil (c ∷ cs) x h = join-ne-nil c cs x

-- The two maps hold the same paths.
abbrev pub Agree : Files → Paths → Type 0
Agree files m = (q : Bytes) → is_some (lookup q files) ≡ is_some (lookup q m)

-- A header that both read alike: not an opaque marker, of a tracked type, with a readable body.
abbrev pub IsPlain : Next → Type 0
IsPlain failure = ⊥
IsPlain (entry h none) = ⊥
IsPlain (entry h (some body)) =
    (equal (base (clean_path h.name)) (codes ".wh..wh..opq") ≡ false)
    × (is_tracked h.typeflag ≡ true)

base_nil : base [] ≡ codes "."
unfolding base
base_nil = refl

-- The state that Flatten has after a plain header with the clean name `n`.
abbrev whited : Bytes → Files → Files
whited target files = delete_where (is_below target) (delete_where (λ p. equal p target) files)

abbrev after_plain : Bytes → Header → Bytes → Merge → Merge
after_plain n h body s =
    if has_prefix (base n) (codes ".wh.")
    then record s { files = whited (join (dir n) (drop 4 (base n))) s.files }
    else if equal n []
    then s
    else add_file n h (if h.typeflag == b'0' && ltb 0 h.size then body else []) s

merge_entry-plain :
    (h : Header) (body : Bytes) (s : Merge)
    → equal (base (clean_path h.name)) (codes ".wh..wh..opq") ≡ false
    → merge_entry h (some body) s ≡ some (after_plain (clean_path h.name) h body s)
unfolding merge_entry
merge_entry-plain h body s plain = ground arith

after_plain-nil :
    (h : Header) (body : Bytes) (s : Merge) (m : Paths) (q : Bytes)
    → is_some (lookup q s.files) ≡ is_some (lookup q m)
    → is_some (lookup q (after_plain [] h body s).files)
      ≡ is_some (effect (classify [] h.typeflag) q (lookup q m))
unfolding classify base equal has_prefix
after_plain-nil h body s m q agree = agree

after_plain-Agree :
    (n : Bytes) (h : Header) (body : Bytes) (s : Merge) (m : Paths) (q : Bytes)
    → equal (base n) (codes ".wh..wh..opq") ≡ false
    → is_tracked h.typeflag ≡ true
    → is_some (lookup q s.files) ≡ is_some (lookup q m)
    → is_some (lookup q (after_plain n h body s).files)
      ≡ is_some (effect (classify n h.typeflag) q (lookup q m))
unfolding classify add_file
after_plain-Agree n h body s m q plain tracked agree = elim (Bool-cases (equal n [])) [
  | inl e ↦ rw ((equal_iff n []).0 e) (after_plain-nil h body s m q agree)
  | inr e ↦ elim (Bool-cases (has_prefix (base n) (codes ".wh."))) [
    | inl w ↦
        let target : Bytes = join (dir n) (drop 4 (base n)) in
        ground (
          arith,
          lookup-delete_where (is_below target) q (delete_where (λ p. equal p target) s.files),
          lookup-delete_where (λ p. equal p target) q s.files,
          hides_lem target q (join_of-ne-nil (dir n) (drop 4 (base n)) (dir-ne-nil n)),
          equal_iff q target,
        )
    | inr w ↦
        let read : Bytes = if h.typeflag == b'0' && ltb 0 h.size then body else [] in
        let e : FileEntry = record { header = h; body = read; order = s.order } in
        ground (arith, lookup-insert n q e s.files)
  ]
]

abbrev headers_of : List Next → List (Bytes × ℕ)
headers_of [] = []
headers_of (failure ∷ rest) = headers_of rest
headers_of (entry h body ∷ rest) = (h.name, h.typeflag) ∷ headers_of rest

record Merges (layer : List Next) (s : Merge) (m : Paths) : Type 0 where
  end : Merge
  merged : merge_layer layer s ≡ some end
  agree : Agree end.files (record_all (headers_of layer) m)

merge_layer-Agree :
    (layer : List Next) (s : Merge) (m : Paths)
    → All IsPlain layer
    → Agree s.files m
    → Merges layer s m
unfolding merge_layer record_all
merge_layer-Agree [] s m p a = record { end = s; merged = refl; agree = a }
merge_layer-Agree (failure ∷ rest) s m p a = absurd p.0
merge_layer-Agree (entry h none ∷ rest) s m p a = absurd p.0
merge_layer-Agree (entry h (some body) ∷ rest) s m p a =
    let t : Merge = after_plain (clean_path h.name) h body s in
    let a' : Agree t.files (record_header h.name h.typeflag m) = λ q.
      after_plain-Agree (clean_path h.name) h body s m q p.0.0 p.0.1 (a q)
      ∙ ap is_some (
          sym
            (unfold record_header in lookup-apply (classify (clean_path h.name) h.typeflag) q m)) in
    let r = merge_layer-Agree rest t (record_header h.name h.typeflag m) p.1 a' in
    record {
      end = r.end;
      merged = rw (merge_entry-plain h body s p.0.0, merge_layer) r.merged;
      agree = r.agree;
    }

abbrev pub all_headers : List (List Next) → List (Bytes × ℕ)
all_headers [] = []
all_headers (layer ∷ layers) = headers_of layer ++ all_headers layers

record_all-append :
    (a b : List (Bytes × ℕ)) (m : Paths) → record_all (a ++ b) m ≡ record_all b (record_all a m)
unfolding record_all
record_all-append [] b m = refl
record_all-append ((name, t) ∷ a) b m = record_all-append a b (record_header name t m)

-- On layers without opaque markers, whose entries have tracked types and readable bodies, the merge
-- of Flatten succeeds, and from maps with the same paths it ends with exactly the paths that the
-- index has for the same headers in stream order.
pub merge_layers-Agree :
    (layers : List (List Next)) (s : Merge) (m : Paths)
    → All (All IsPlain) layers
    → Agree s.files m
    → (t : Merge) × (merge_layers layers s ≡ some t)
      × Agree t.files (record_all (all_headers layers) m)
unfolding merge_layers
merge_layers-Agree [] s m p a = (s, refl, unfold record_all in a)
merge_layers-Agree (layer ∷ layers) s m p a =
    let r = merge_layer-Agree layer (record s { current = [] }) m p.0 a in
    let (t, e, b) = merge_layers-Agree layers r.end (record_all (headers_of layer) m) p.1 r.agree in
    (
      t,
      rw (r.merged, merge_layers) e,
      rw (record_all-append (headers_of layer) (all_headers layers) m) b,
    )
