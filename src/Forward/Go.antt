-- ===== src/Forward/Go.antt =====
-- What pkg/container/forward/spec.go uses of the packages strconv, net and strings.
pub mod Parts
use sandal.Prelude.{
  ℕ, suc, ◌+◌, ◌-◌, ◌*◌, Bool, false, ◌&&◌, ◌||◌, Option, none, some, List, [], ◌∷◌, ◌==◌,
  if◌then◌else◌, take, drop, leb, ltb,
}
use sandal.Prelude.Words.{Bytes}
use sandal.Prelude.Text.{index_byte, last_index_byte}

-- An int; `negsuc n` is -(n + 1).
pub data ℤ : Type 0 where
  pos : ℕ → ℤ
  negsuc : ℕ → ℤ

abbrev pub is_digit : ℕ → Bool
is_digit c = leb b'0' c && leb c b'9'

-- The value of a string of digits; `none` if another byte is among them.
digits : ℕ → Bytes → Option ℕ
digits acc [] = some acc
digits acc (c ∷ cs) =
    let rest = digits (acc * 10 + (c - b'0')) cs in if is_digit c then rest else none

positive : Bytes → Option ℤ
unfolding digits
positive [] = none
positive (c ∷ cs) = elim (digits 0 (c ∷ cs)) [
  | none ↦ none
  | some n ↦ if ltb n 9223372036854775808 then some (pos n) else none
]

negated : Option ℕ → Option ℤ
negated none = none
negated (some n) =
    if n == 0
    then some (pos 0)
    else if leb n 9223372036854775808
    then some (negsuc (n - 1))
    else none

negative : Bytes → Option ℤ
unfolding digits negated
negative [] = none
negative (c ∷ cs) = negated (digits 0 (c ∷ cs))

-- strconv.Atoi: digits behind an optional sign, in the range of int64.
unfoldable pub atoi : Bytes → Option ℤ
unfolding positive negative
atoi [] = none
atoi (c ∷ cs) =
    if c == b'-' then negative cs else if c == b'+' then positive cs else positive (c ∷ cs)

abbrev has_byte : ℕ → Bytes → Bool
has_byte b [] = false
has_byte b (c ∷ cs) = c == b || has_byte b cs

-- strings.Split(s, ":")
unfoldable pub add_byte : ℕ → List Bytes → List Bytes
add_byte c [] = (c ∷ []) ∷ []
add_byte c (p ∷ pieces) = (c ∷ p) ∷ pieces

unfoldable pub split_colon : Bytes → List Bytes
unfolding add_byte
split_colon [] = [] ∷ []
split_colon (c ∷ cs) =
    let pieces = split_colon cs in if c == b':' then [] ∷ pieces else add_byte c pieces

-- The end of net.SplitHostPort: no bracket may stand where `j` and `k` begin.
checked : Bytes → ℕ → ℕ → ℕ → Bytes → Option (Bytes × Bytes)
checked s i j k host =
    if has_byte b'[' (drop j s) || has_byte b']' (drop k s)
    then none
    else some (host, drop (suc i) s)

-- Behind `[`: the address ends at `]`, and the last colon must come next.
bracketed : Bytes → ℕ → Option ℕ → Option (Bytes × Bytes)
unfolding checked
bracketed s i none = none
bracketed s i (some e) =
    if suc e == i then checked s i 1 (suc e) (take (e - 1) (drop 1 s)) else none

starts_with_bracket : Bytes → Bool
starts_with_bracket [] = false
starts_with_bracket (c ∷ _) = c == b'['

-- net.SplitHostPort; every error is `none`.
split_at : Bytes → Option ℕ → Option (Bytes × Bytes)
unfolding bracketed checked starts_with_bracket index_byte
split_at s none = none
split_at s (some i) =
    if starts_with_bracket s
    then bracketed s i (index_byte s b']')
    else if has_byte b':' (take i s)
    then none
    else checked s i 0 0 (take i s)

unfoldable pub split_host_port : Bytes → Option (Bytes × Bytes)
unfolding split_at last_index_byte
split_host_port s = split_at s (last_index_byte s b':')
