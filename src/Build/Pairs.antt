-- ===== src/Build/Pairs.antt =====
-- What parseKVList (pkg/lib/container/build/dockerfile.go) promises of its strings.
use sandal.Prelude.{
  ◌≡◌, refl, ap, inl, inr, true, not, ◌&&◌, List, [], ◌∷◌, ◌++◌, Bool-cases, arith,
}
use sandal.Prelude.Words.{Bytes}
use sandal.Build.Text.{trim_space}
use sandal.Build.Tokens.{
  Parsed, parsed, failed, non_empty, has_equals, all_equals, split_first, shell_split, unquote,
  parse_kv_list,
}

has_equals-append : (k v : Bytes) → has_equals (k ++ b'=' ∷ v) ≡ true
has_equals-append [] v = refl
has_equals-append (c ∷ k) v = ground (arith, has_equals-append k v)

AllEquals : Parsed (List Bytes) → Type 0
AllEquals (parsed ps) = all_equals ps ≡ true
AllEquals (failed e) = Unit

parse_kv_list-AllEquals : (rest : Bytes) → AllEquals (parse_kv_list rest)
unfolding parse_kv_list AllEquals
parse_kv_list-AllEquals rest =
    let k = (split_first rest).0 in
    let after = (split_first rest).1 in
    elim (Bool-cases (not (non_empty k))) [
      | inl e ↦ rw e tt
      | inr e ↦ elim (Bool-cases (not (has_equals k) && not (has_equals after))) [
        | inl f ↦ rw (e, f) (ap (λ b. b && true) (has_equals-append k (unquote (trim_space after))))
        | inr f ↦ elim (Bool-cases (all_equals (shell_split rest))) [
          | inl g ↦ rw (e, f, g) g
          | inr g ↦ rw (e, f, g) tt
        ]
      ]
    ]

-- Every string of an ENV, LABEL or ARG list that is accepted has an equals sign.
parse_kv_list-all_equals :
    (rest : Bytes) (ps : List Bytes) → parse_kv_list rest ≡ parsed ps → all_equals ps ≡ true
unfolding AllEquals
parse_kv_list-all_equals rest ps e = rw e at (parse_kv_list-AllEquals rest)
