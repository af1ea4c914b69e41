-- ===== src/Registry.antt =====
-- References to images: pkg/lib/container/registry/reference.go.
pub mod Nameless
pub mod RoundTrip
use sandal.Prelude.{
  ℕ, suc, Bool, true, false, ◌&&◌, ◌||◌, Option, none, some, [], ◌∷◌, ◌++◌, take, drop, ltb, ◌==◌,
  if◌then◌else◌,
}
use sandal.Prelude.Words.{Bytes}
use sandal.Prelude.Text.{codes, equal, index_byte, last_index_byte}

pub record Reference : Type 0 where
  pub registry : Bytes
  pub repository : Bytes
  pub tag : Bytes
  pub digest : Bytes

abbrev pub is_empty : Bytes → Bool
is_empty [] = true
is_empty (b ∷ bs) = false

-- Reference.Ref
unfoldable pub ref : Reference → Bytes
ref r = if is_empty r.digest then r.tag else r.digest

-- Reference.String
unfoldable pub to_string : Reference → Bytes
to_string r =
    let s = r.registry ++ (b'/' ∷ r.repository) in
    if is_empty r.digest
    then if is_empty r.tag then s else s ++ (b':' ∷ r.tag)
    else s ++ (b'@' ∷ r.digest)

-- The digest behind the first '@', and what stands before it.
abbrev pub cut_digest : Option ℕ → Bytes → Bytes × Bytes
cut_digest none raw = ([], raw)
cut_digest (some i) raw = (drop (suc i) raw, take i raw)

-- strings.ContainsAny(s, ".:")
abbrev pub has_dot_or_colon : Bytes → Bool
has_dot_or_colon [] = false
has_dot_or_colon (c ∷ cs) = c == b'.' || c == b':' || has_dot_or_colon cs

-- The registry, which is empty where none is named, and the remainder, by the place of the first
-- slash.
unfoldable pub split_registry : Option ℕ → Bytes → Bytes × Bytes
split_registry none raw = ([], raw)
split_registry (some i) raw =
    let first = take i raw in
    if has_dot_or_colon first || equal first (codes "localhost")
    then (first, drop (suc i) raw)
    else ([], raw)

-- The last colon, if it is behind the last slash.
abbrev behind_slash : Option ℕ → Option ℕ → Option ℕ
behind_slash none slash = none
behind_slash (some colon) none = some colon
behind_slash (some colon) (some slash) = if ltb slash colon then some colon else none

abbrev pub cut_tag : Option ℕ → Bytes → Bytes × Bytes
cut_tag none remainder = ([], remainder)
cut_tag (some i) remainder = (drop (suc i) remainder, take i remainder)

-- The tag and the repository: no tag is looked for where there is a digest.
unfoldable pub split_tag : Bytes → Bytes → Bytes × Bytes
split_tag digest remainder =
    if is_empty digest
    then cut_tag (behind_slash (last_index_byte remainder b':') (last_index_byte remainder b'/'))
        remainder
    else ([], remainder)

abbrev pub is_hub : Bytes → Bool
is_hub registry =
    is_empty registry
    || equal registry (codes "docker.io")
    || equal registry (codes "index.docker.io")

abbrev pub hub : Bytes
hub = codes "registry-1.docker.io"

abbrev has_slash : Bytes → Bool
has_slash [] = false
has_slash (c ∷ cs) = c == b'/' || has_slash cs

-- The names of Docker Hub.
unfoldable pub normalize : Bytes → Bytes → Bytes × Bytes
normalize registry repository =
    if is_hub registry
    then (hub, if has_slash repository then repository else codes "library/" ++ repository)
    else (registry, repository)

abbrev pub or_latest : Bytes → Bytes → Bytes
or_latest tag digest = if is_empty tag && is_empty digest then codes "latest" else tag

pub data Parsed : Type 0 where
  parsed : Reference → Parsed
  -- The error "empty repository in reference", with the reference that is returned beside it.
  empty_repository : Reference → Parsed

abbrev pub checked : Reference → Parsed
checked r = if is_empty r.repository then empty_repository r else parsed r

-- ParseReference once the digest is cut off.
unfoldable pub without_digest : Bytes → Bytes → Parsed
without_digest digest raw =
    let (registry, remainder) = split_registry (index_byte raw b'/') raw in
    let (tag, repository) = split_tag digest remainder in
    let (host, name) = normalize registry repository in
    checked
      (record { registry = host; repository = name; tag = or_latest tag digest; digest = digest })

-- ParseReference
unfoldable pub parse_reference : Bytes → Parsed
unfolding without_digest
parse_reference input =
    let (digest, raw) = cut_digest (index_byte input b'@') input in without_digest digest raw
