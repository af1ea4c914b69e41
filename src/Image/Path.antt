-- ===== src/Image/Path.antt =====
-- What the code of pkg/lib/container/image uses of the package path, on byte strings, and
-- cleanPath of flatten.go.
use sandal.Prelude.{
  ℕ, suc, Bool, true, false, ◌&&◌, ◌||◌, none, some, List, [], ◌∷◌, ◌++◌, ◌==◌, if◌then◌else◌, take,
  drop,
}
use sandal.Prelude.Words.{Bytes}
use sandal.Prelude.Text.{codes, equal, has_prefix, cut_prefix, last_index_byte}

-- The pieces between slashes.
add_byte : ℕ → List Bytes → List Bytes
add_byte c [] = (c ∷ []) ∷ []
add_byte c (p ∷ pieces) = (c ∷ p) ∷ pieces

split_slash : Bytes → List Bytes
unfolding add_byte
split_slash [] = [] ∷ []
split_slash (c ∷ cs) =
    let pieces = split_slash cs in if c == b'/' then [] ∷ pieces else add_byte c pieces

abbrev dot : Bytes
dot = codes "."

abbrev dotdot : Bytes
dotdot = codes ".."

-- One piece on the pieces kept so far, the latest first. `..` takes one back, if there is one that
-- is not `..` itself; at the root it is dropped.
up : Bool → List Bytes → List Bytes
unfolding equal
up rooted [] = if rooted then [] else dotdot ∷ []
up rooted (p ∷ kept) = if equal p dotdot then dotdot ∷ p ∷ kept else kept

keep : Bool → Bytes → List Bytes → List Bytes
unfolding equal up
keep rooted p kept =
    if equal p [] || equal p dot then kept else if equal p dotdot then up rooted kept else p ∷ kept

keep_all : Bool → List Bytes → List Bytes → List Bytes
unfolding keep
keep_all rooted [] kept = kept
keep_all rooted (p ∷ ps) kept = keep_all rooted ps (keep rooted p kept)

-- The kept pieces joined by slashes, the latest last.
join_onto : List Bytes → Bytes → Bytes
join_onto [] out = out
join_onto (p ∷ []) out = p ++ out
join_onto (p ∷ q ∷ kept) out = join_onto (q ∷ kept) (b'/' ∷ (p ++ out))

is_rooted : Bytes → Bool
is_rooted [] = false
is_rooted (c ∷ _) = c == b'/'

abbrev pub or_dot : Bytes → Bytes
or_dot [] = dot
or_dot (c ∷ cs) = c ∷ cs

-- path.Clean
unfoldable pub clean : Bytes → Bytes
unfolding split_slash keep_all join_onto is_rooted
clean p =
    let body = join_onto (keep_all (is_rooted p) (split_slash p) []) [] in
    or_dot (if is_rooted p then b'/' ∷ body else body)

-- path.Dir: what stands before the last slash, cleaned.
unfoldable pub dir : Bytes → Bytes
unfolding clean last_index_byte
dir p = elim (last_index_byte p b'/') [ none ↦ clean [] | some i ↦ clean (take (suc i) p) ]

all_slashes : Bytes → Bool
all_slashes [] = true
all_slashes (c ∷ cs) = c == b'/' && all_slashes cs

trim_slashes : Bytes → Bytes
unfolding all_slashes
trim_slashes [] = []
trim_slashes (c ∷ cs) = if all_slashes (c ∷ cs) then [] else c ∷ trim_slashes cs

after_slash : Bytes → Bytes
unfolding last_index_byte
after_slash p = elim (last_index_byte p b'/') [ none ↦ p | some i ↦ drop (suc i) p ]

or_slash : Bytes → Bytes
or_slash [] = codes "/"
or_slash (c ∷ cs) = c ∷ cs

-- path.Base: what stands behind the last slash, trailing slashes taken off.
unfoldable pub base : Bytes → Bytes
unfolding trim_slashes after_slash or_slash
base [] = dot
base (c ∷ cs) = or_slash (after_slash (trim_slashes (c ∷ cs)))

-- path.Join of two elements; empty ones are left out.
unfoldable pub join : Bytes → Bytes → Bytes
unfolding clean
join [] [] = []
join [] (c ∷ cs) = clean (c ∷ cs)
join (c ∷ cs) [] = clean (c ∷ cs)
join (c ∷ cs) (d ∷ ds) = clean ((c ∷ cs) ++ b'/' ∷ d ∷ ds)

-- strings.TrimPrefix
trim_prefix : Bytes → Bytes → Bytes
unfolding has_prefix cut_prefix
trim_prefix s p = elim (cut_prefix s p) [ none ↦ s | some rest ↦ rest ]

-- cleanPath: no leading `./` or `/`, no trailing slash, and nothing for the root.
unfoldable pub clean_path : Bytes → Bytes
unfolding clean trim_prefix equal
clean_path p =
    let q = trim_prefix (trim_prefix (clean p) (codes "./")) (codes "/") in
    if equal q dot then [] else q
