-- ===== src/Build/Tokens.antt =====
-- The tokens of an instruction: splitFirst, extractFlags, shellSplit and parseKVList of
-- pkg/lib/container/build/dockerfile.go.
use sandal.Prelude.{
  ℕ, zero, suc, ◌-◌, ◌≤◌, Bool, true, false, not, ◌&&◌, ◌||◌, none, some, List, [], ◌∷◌, ◌++◌, ◌==◌,
  if◌then◌else◌, leb, length, take, drop, get_or, arith,
}
use sandal.Prelude.Words.{Bytes}
use sandal.Prelude.Text.{codes, equal, has_prefix, index_byte}
use sandal.Build.Text.{is_blank, trim_left, trim_space}

-- The bytes before the first blank, and the rest from it on.
unfoldable pub token : Bytes → Bytes
token [] = []
token (c ∷ cs) = let t = token cs in if is_blank c then [] else c ∷ t

unfoldable pub after_token : Bytes → Bytes
after_token [] = []
after_token (c ∷ cs) = if is_blank c then c ∷ cs else after_token cs

pub length-after_token : (s : Bytes) → length (after_token s) ≤ length s
unfolding after_token
length-after_token [] = ground arith
length-after_token (c ∷ cs) = ground (arith, length-after_token cs)

-- splitFirst
unfoldable pub split_first : Bytes → Bytes × Bytes
split_first s = (token (trim_left s), trim_left (after_token (trim_left s)))

-- A map[string]string that is nil or has keys; a write replaces or adds.
abbrev pub Flags : Type 0
Flags = List (Bytes × Bytes)

unfoldable pub put : Bytes → Bytes → Flags → Flags
unfolding equal
put k v [] = (k, v) ∷ []
put k v ((k', v') ∷ flags) = if equal k k' then (k, v) ∷ flags else (k', v') ∷ put k v flags

-- The write of one flag token, which starts with "--".
unfoldable pub put_flag : Bytes → Flags → Flags
put_flag tok flags = elim (index_byte tok b'=') [
  | none ↦ put (drop 2 tok) (codes "true") flags
  | some eq ↦ put (drop 2 (take eq tok)) (drop (suc eq) tok) flags
]

-- A round of extractFlags, with what the further rounds give.
unfoldable pub extract_round : Bytes → Flags → Bytes × Flags → Bytes × Flags
extract_round rest flags more =
    if has_prefix (trim_left rest) (codes "--")
    then if equal (token (trim_left rest)) (codes "--")
      then (after_token (trim_left rest), flags)
      else more
    else (trim_left rest, flags)

-- extractFlags; the loop's rounds are the fuel, and every round but the last takes two bytes or more.
unfoldable pub extract_loop : ℕ → Bytes → Flags → Bytes × Flags
extract_loop zero rest flags = (trim_left rest, flags)
extract_loop (suc fuel) rest flags =
    extract_round rest flags
      (extract_loop fuel (after_token (trim_left rest)) (put_flag (token (trim_left rest)) flags))

unfoldable pub extract_flags : Bytes → Bytes × Flags
extract_flags rest = extract_loop (length rest) rest []

-- The two Booleans of shellSplit, and whether the next byte is taken as it is.
pub data Quote : Type 0 where
  bare in_single in_double escaped : Quote

-- The writes of `cur` to `out`: an empty one is dropped.
abbrev pub emit : Bytes → List Bytes
emit [] = []
emit (c ∷ cs) = (c ∷ cs) ∷ []

-- One round of the loop on byte `c`; `more` is whether another byte follows.
unfoldable pub shell_step : Quote → Bytes → ℕ → Bool → List Bytes × Quote × Bytes
shell_step in_single cur c more =
    if c == b'\'' then ([], bare, cur) else ([], in_single, cur ++ c ∷ [])
shell_step in_double cur c more =
    if c == b'"'
    then ([], bare, cur)
    else if c == b'\\' && more
    then ([], escaped, cur)
    else ([], in_double, cur ++ c ∷ [])
shell_step escaped cur c more = ([], in_double, cur ++ c ∷ [])
shell_step bare cur c more =
    if c == b'\''
    then ([], in_single, cur)
    else if c == b'"'
    then ([], in_double, cur)
    else if is_blank c
    then (emit cur, bare, [])
    else ([], bare, cur ++ c ∷ [])

abbrev pub non_empty : Bytes → Bool
non_empty [] = false
non_empty (c ∷ cs) = true

unfoldable pub shell_words : Quote → Bytes → Bytes → List Bytes
shell_words q cur [] = emit cur
shell_words q cur (c ∷ cs) =
    let (out, q', cur') = shell_step q cur c (non_empty cs) in out ++ shell_words q' cur' cs

-- shellSplit
unfoldable pub shell_split : Bytes → List Bytes
shell_split s = shell_words bare [] s

-- strings.ContainsRune(s, '=')
abbrev pub has_equals : Bytes → Bool
has_equals [] = false
has_equals (c ∷ cs) = c == b'=' || has_equals cs

abbrev pub all_equals : List Bytes → Bool
all_equals [] = true
all_equals (t ∷ ts) = has_equals t && all_equals ts

-- The errors carry no text.
pub data SyntaxError : Type 0 where
  unknown_instruction missing_key not_key_value scan_failed : SyntaxError

pub data Parsed {ℓ} (A : Type ℓ) : Type ℓ where
  parsed : A → Parsed A
  failed : SyntaxError → Parsed A

infixl 5 ◌>>=◌
abbrev pub ◌>>=◌ {ℓ κ} : {A : Type ℓ} {B : Type κ} → Parsed A → (A → Parsed B) → Parsed B
parsed a >>= f = f a
failed e >>= f = failed e

-- The legacy form's value, with the quotes around it taken off.
unfoldable pub unquote : Bytes → Bytes
unquote val =
    let first = get_or val 0 0 in
    let last = get_or val (length val - 1) 0 in
    if leb 2 (length val) && (first == b'"' && last == b'"' || first == b'\'' && last == b'\'')
    then take (length val - 2) (drop 1 val)
    else val

-- parseKVList
unfoldable pub parse_kv_list : Bytes → Parsed (List Bytes)
parse_kv_list rest =
    let (first, after) = split_first rest in
    if not (non_empty first)
    then failed missing_key
    else if not (has_equals first) && not (has_equals after)
    then parsed ((first ++ b'=' ∷ unquote (trim_space after)) ∷ [])
    else if all_equals (shell_split rest)
    then parsed (shell_split rest)
    else failed not_key_value
