-- ===== src/Build/Flags.antt =====
-- The loop of extractFlags (pkg/lib/container/build/dockerfile.go).
use sandal.Prelude.{
  ◌≡◌, refl, ap, ◌∙◌, inl, inr, ℕ, zero, suc, ◌+◌, ◌≤◌, ◌<◌, true, [], ◌∷◌, length, Bool-cases,
  arith,
}
use sandal.Prelude.Words.{Bytes}
use sandal.Prelude.Text.{codes, has_prefix}
use sandal.Build.Text.{trim_left, length-trim_left}
use sandal.Build.Tokens.{
  Flags, token, after_token, length-after_token, put_flag, extract_round, extract_loop,
  extract_flags,
}

-- A token that starts with a dash takes a byte.
length-after_token_lt :
    (s : Bytes) → has_prefix s (codes "--") ≡ true → length (after_token s) < length s
unfolding after_token has_prefix
length-after_token_lt [] h = ground arith
length-after_token_lt (c ∷ cs) h = ground (arith, length-after_token cs)

shorter :
    (s : Bytes)
    → has_prefix (trim_left s) (codes "--") ≡ true
    → length (after_token (trim_left s)) < length s
shorter s h = omega (arith, length-after_token_lt (trim_left s) h, length-trim_left s)

one_more :
    (fuel : ℕ) (s : Bytes) (flags : Flags)
    → length s ≤ fuel
    → extract_loop (suc fuel) s flags ≡ extract_loop fuel s flags
unfolding extract_loop extract_round trim_left has_prefix
one_more zero [] flags h = refl
one_more zero (c ∷ s) flags h = absurd (omega arith)
one_more (suc fuel) s flags h = elim (Bool-cases (has_prefix (trim_left s) (codes "--"))) [
  | inr e ↦ rw e refl
  | inl e ↦
      let ih =
        one_more fuel (after_token (trim_left s)) (put_flag (token (trim_left s)) flags)
          (omega (arith, shorter s e)) in
      ap (extract_round s flags) ih
]

-- The loop of extractFlags has ended after as many rounds as there are bytes: more rounds change
-- nothing.
pub extract_flags_enough : (n : ℕ) (s : Bytes) → extract_loop (n + length s) s [] ≡ extract_flags s
unfolding extract_flags
extract_flags_enough zero s = let e : 0 + length s ≡ length s = omega arith in rw e
extract_flags_enough (suc n) s =
    let e : suc n + length s ≡ suc (n + length s) = omega arith in
    rw e (one_more (n + length s) s [] (omega arith) ∙ extract_flags_enough n s)
