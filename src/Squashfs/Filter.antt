-- ===== src/Squashfs/Filter.antt =====
-- The path filter of pkg/lib/squashfs/filter.go: NewIncludeExcludeFilter. That the lists of the
-- caller are normalised in place is not modelled.
use sandal.Prelude.{Bool, true, false, ◌||◌, ◌&&◌, List, [], ◌∷◌, ◌++◌, map, ◌==◌, if◌then◌else◌}
use sandal.Prelude.Words.{Bytes}
use sandal.Prelude.Text.{equal, has_prefix}

-- strings.TrimSuffix(p, "/")
unfoldable trim_slash : Bytes → Bytes
trim_slash [] = []
trim_slash (x ∷ []) = if x == b'/' then [] else x ∷ []
trim_slash (x ∷ y ∷ b) = x ∷ trim_slash (y ∷ b)

unfoldable norm : Bytes → Bytes
unfolding trim_slash has_prefix
norm p = trim_slash (if has_prefix p (b'/' ∷ []) then p else b'/' ∷ p)

-- The path is the other one, or below it.
abbrev is_or_below : Bytes → Bytes → Bool
is_or_below p d = equal p d || has_prefix p (d ++ b'/' ∷ [])

unfoldable excluded : Bytes → List Bytes → Bool
unfolding equal has_prefix
excluded p [] = false
excluded p (e ∷ es) = if is_or_below p e then true else excluded p es

unfoldable included : Bytes → Bool → List Bytes → Bool
unfolding equal has_prefix
included p is_dir [] = false
included p is_dir (i ∷ is) =
    if is_or_below p i
    then true
    else (if is_dir && has_prefix i (p ++ b'/' ∷ []) then true else included p is_dir is)

unfoldable pub new_include_exclude_filter : List Bytes → List Bytes → Bytes → Bool → Bool
unfolding norm excluded included
new_include_exclude_filter includes excludes path is_dir =
    if excluded (norm path) (map norm excludes)
    then false
    else included (norm path) is_dir (map norm includes)
