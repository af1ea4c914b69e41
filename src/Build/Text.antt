-- ===== src/Build/Text.antt =====
-- What dockerfile.go uses of the package strings. White space is what unicode.IsSpace says, read
-- from the UTF-8 bytes of the code points.
use sandal.Prelude.{
  ◌≡◌, refl, ℕ, zero, suc, ◌-◌, ◌≤◌, Bool, true, false, ◌&&◌, ◌||◌, [], ◌∷◌, ◌==◌, if◌then◌else◌,
  leb, length, arith, get_or,
}
use sandal.Prelude.Words.{Bytes}

-- The cutset " \t".
abbrev pub is_blank : ℕ → Bool
is_blank c = c == b' ' || c == 9

-- strings.TrimLeft(s, " \t")
unfoldable pub trim_left : Bytes → Bytes
trim_left [] = []
trim_left (c ∷ cs) = if is_blank c then trim_left cs else c ∷ cs

pub length-trim_left : (s : Bytes) → length (trim_left s) ≤ length s
unfolding trim_left
length-trim_left [] = ground arith
length-trim_left (c ∷ cs) = ground (arith, length-trim_left cs)

-- strings.TrimRight(s, cutset), with the bytes of the cutset as a test.
abbrev onto : Bool → ℕ → Bytes → Bytes
onto cut c (d ∷ ds) = c ∷ d ∷ ds
onto true c [] = []
onto false c [] = c ∷ []

unfoldable pub trim_right : (ℕ → Bool) → Bytes → Bytes
trim_right cut [] = []
trim_right cut (c ∷ cs) = onto (cut c) c (trim_right cut cs)

ascii_space : ℕ → Bool
ascii_space c = c == 32 || leb 9 c && leb c 13

space2 : ℕ → ℕ → Bool
space2 a b = a == 0xc2 && (b == 0x85 || b == 0xa0)

space3 : ℕ → ℕ → ℕ → Bool
space3 a b c =
    (a == 0xe1 && b == 0x9a && c == 0x80)
    || (a == 0xe2 && b == 0x80 && (leb 0x80 c && leb c 0x8a || c == 0xa8 || c == 0xa9 || c == 0xaf))
    || (a == 0xe2 && b == 0x81 && c == 0x9f)
    || (a == 0xe3 && b == 0x80 && c == 0x80)

-- The number of bytes of the white space at the front, and of the one at the end of a reversed
-- string.
space_front : Bytes → ℕ
unfolding ascii_space space2 space3
space_front s =
    if ascii_space (get_or s 0 0)
    then 1
    else if space2 (get_or s 0 0) (get_or s 1 0)
    then 2
    else if space3 (get_or s 0 0) (get_or s 1 0) (get_or s 2 0)
    then 3
    else 0

space_back : Bytes → ℕ
unfolding ascii_space space2 space3
space_back s =
    if ascii_space (get_or s 0 0)
    then 1
    else if space2 (get_or s 1 0) (get_or s 0 0)
    then 2
    else if space3 (get_or s 2 0) (get_or s 1 0) (get_or s 0 0)
    then 3
    else 0

-- Skips white space, `n` bytes of which are still to be skipped.
skip : (Bytes → ℕ) → ℕ → Bytes → Bytes
skip space n [] = []
skip space (suc n) (c ∷ cs) = skip space n cs
skip space zero (c ∷ cs) =
    let rest = skip space (space (c ∷ cs) - 1) cs in if space (c ∷ cs) == 0 then c ∷ cs else rest

abbrev reversed : Bytes → Bytes → Bytes
reversed acc [] = acc
reversed acc (c ∷ cs) = reversed (c ∷ acc) cs

-- strings.TrimSpace
unfoldable pub trim_space : Bytes → Bytes
unfolding skip space_front space_back
trim_space s = reversed [] (skip space_back 0 (reversed [] (skip space_front 0 s)))

pub trim_space-nil : trim_space [] ≡ []
unfolding trim_space skip
trim_space-nil = refl
