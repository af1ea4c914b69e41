-- ===== src/Build/Quoting.antt =====
-- Quoting as shellSplit (pkg/lib/container/build/dockerfile.go) reads it.
use sandal.Prelude.{
  ◌≡◌, refl, ap, ◌∙◌, ◌≢◌, inl, inr, ℕ, Bool, false, List, [], ◌∷◌, ◌++◌, ◌==◌, if◌then◌else◌, All,
  Bool-cases, append_assoc, append-nil,
}
use sandal.Prelude.Words.{Bytes}
use sandal.Build.Tokens.{bare, in_double, emit, shell_step, non_empty, shell_words, shell_split}

-- A word between double quotes, each quote and backslash of it behind a backslash.
abbrev pub escape : Bytes → Bytes
escape [] = b'"' ∷ []
escape (c ∷ cs) =
    let rest = escape cs in
    if c == b'"' then b'\\' ∷ c ∷ rest else if c == b'\\' then b'\\' ∷ c ∷ rest else c ∷ rest

abbrev pub print_words : List Bytes → Bytes
print_words [] = []
print_words (w ∷ ws) = (b'"' ∷ escape w) ++ b' ' ∷ print_words ws

shell_step_plain :
    (cur : Bytes) (c : ℕ) (more : Bool)
    → (c == b'"') ≡ false
    → (c == b'\\') ≡ false
    → shell_step in_double cur c more ≡ ([], in_double, cur ++ c ∷ [])
unfolding shell_step
shell_step_plain cur c more e f = rw (e, f) refl

shell_words_plain :
    (cur : Bytes) (c : ℕ) (s : Bytes)
    → (c == b'"') ≡ false
    → (c == b'\\') ≡ false
    → shell_words in_double cur (c ∷ s) ≡ shell_words in_double (cur ++ c ∷ []) s
unfolding shell_words
shell_words_plain cur c s e f = rw (shell_step_plain cur c (non_empty s) e f) refl

shell_words_behind_backslash :
    (cur : Bytes) (c : ℕ) (s : Bytes)
    → shell_words in_double cur (b'\\' ∷ c ∷ s) ≡ shell_words in_double (cur ++ c ∷ []) s
unfolding shell_words shell_step
shell_words_behind_backslash cur c s = refl

shell_words_closed :
    (cur rest : Bytes) → shell_words in_double cur (b'"' ∷ rest) ≡ shell_words bare (cur ++ []) rest
unfolding shell_words shell_step
shell_words_closed cur rest = rw (append-nil cur)

shell_words-escape :
    (w cur rest : Bytes)
    → shell_words in_double cur (escape w ++ rest) ≡ shell_words bare (cur ++ w) rest
shell_words-escape [] cur rest = shell_words_closed cur rest
shell_words-escape (c ∷ w) cur rest =
    let next : shell_words in_double (cur ++ c ∷ []) (escape w ++ rest)
        ≡ shell_words bare (cur ++ c ∷ w) rest =
      shell_words-escape w (cur ++ c ∷ []) rest
      ∙ ap (λ x. shell_words bare x rest) (append_assoc cur (c ∷ []) w) in
    elim (Bool-cases (c == b'"')) [
      | inl e ↦ rw e (shell_words_behind_backslash cur c (escape w ++ rest) ∙ next)
      | inr e ↦ elim (Bool-cases (c == b'\\')) [
        | inl f ↦ rw (e, f) (shell_words_behind_backslash cur c (escape w ++ rest) ∙ next)
        | inr f ↦ rw (e, f) (shell_words_plain cur c (escape w ++ rest) e f ∙ next)
      ]
    ]

-- Non-empty words, printed between double quotes with a space behind each, are split into the same
-- words.
pub shell_split-print_words :
    (ws : List Bytes) → All (λ w. w ≢ []) ws → shell_split (print_words ws) ≡ ws
unfolding shell_split shell_words shell_step
shell_split-print_words [] h = refl
shell_split-print_words (w ∷ ws) h =
    rw (shell_words-escape w [] (b' ' ∷ print_words ws))
      (shut w h.0 ∙ ap (◌∷◌ w) (shell_split-print_words ws h.1))
  where
    shut :
        (v : Bytes)
        → v ≢ []
        → emit v ++ shell_words bare [] (print_words ws) ≡ v ∷ shell_words bare [] (print_words ws)
    shut [] n = absurd (n refl)
    shut (c ∷ cs) n = refl
