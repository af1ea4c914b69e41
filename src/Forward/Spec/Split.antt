-- ===== src/Forward/Spec/Split.antt =====
-- splitHostCont (pkg/container/forward/spec.go): where a flag is parted.
use sandal.Prelude.{
  ℕ, suc, ◌+◌, ◌≤◌, ◌≡◌, refl, sym, ap, ◌∙◌, ◌⊎◌, inl, inr, true, false, none, some, List, [], ◌∷◌,
  ◌++◌, arith, length, ◌==◌, if◌then◌else◌, Bool-cases, Option-cases, append_assoc, All,
}
use sandal.Prelude.Words.{Bytes}
use sandal.Prelude.Text.{codes, has_prefix}
use sandal.Forward.Go.{ℤ, atoi, split_colon, add_byte}
use sandal.Forward.Spec.{
  Result, ok, err, too_many_colons, split_numeric, split_net, container_marker, split_host_cont,
}
use sandal.Forward.Spec.Cuts.{
  ColonAt, index-ColonAt, earlier-ColonAt, IsCut, IsCut-text, unix_cut, split_after_unix-IsCut,
}

-- The parts of strings.Split, joined again.
abbrev join_colon : List Bytes → Bytes
join_colon [] = []
join_colon (p ∷ []) = p
join_colon (p ∷ q ∷ ps) = p ++ (b':' ∷ join_colon (q ∷ ps))

abbrev colons : Bytes → ℕ
colons [] = 0
colons (c ∷ cs) = (if c == b':' then 1 else 0) + colons cs

-- Split gives one part more than there are colons, and loses nothing.
record SplitFacts (s : Bytes) (ps : List Bytes) : Type 0 where
  count : length ps ≡ suc (colons s)
  joined : join_colon ps ≡ s

add_byte-facts :
    (c : ℕ) (s : Bytes) (ps : List Bytes)
    → (c == b':') ≡ false
    → SplitFacts s ps
    → SplitFacts (c ∷ s) (add_byte c ps)
unfolding add_byte
add_byte-facts c s [] e f = absurd (omega (arith, f.count))
add_byte-facts c s (p ∷ []) e f = record {
  count = ground (arith, f.count);
  joined = ap (◌∷◌ c) f.joined;
}
add_byte-facts c s (p ∷ q ∷ ps) e f = record {
  count = ground (arith, f.count);
  joined = ap (◌∷◌ c) f.joined;
}

colon-facts :
    (c : ℕ) (s : Bytes) (ps : List Bytes)
    → (c == b':') ≡ true
    → SplitFacts s ps
    → SplitFacts (c ∷ s) ([] ∷ ps)
colon-facts c s [] e f = absurd (omega (arith, f.count))
colon-facts c s (p ∷ ps) e f = record {
  count = ground (arith, f.count);
  joined = ground (arith, f.joined);
}

split_colon-facts : (s : Bytes) → SplitFacts s (split_colon s)
unfolding split_colon
split_colon-facts [] = record { count = omega arith; joined = refl }
split_colon-facts (c ∷ s) = elim (Bool-cases (c == b':')) [
  | inl e ↦ rw e (colon-facts c s (split_colon s) e (split_colon-facts s))
  | inr e ↦ rw e (add_byte-facts c s (split_colon s) e (split_colon-facts s))
]

-- The parts of a text without a marker: by the number of its colons, and, where it has one, by
-- whether a number stands before it.
abbrev IsNumeric : Bytes → Bytes × Bytes → Type 0
IsNumeric s parts =
    ((colons s ≡ 0) × (parts ≡ (s, [])))
    ⊎ (((colons s ≡ 1) × ((s ≡ parts.0 ++ (b':' ∷ parts.1)) × ((n : ℤ) × (atoi parts.0 ≡ some n))))
        ⊎ (((colons s ≡ 1)
              × (parts ≡ (s, []))
              × ((a : Bytes) × (b : Bytes) × (s ≡ a ++ (b':' ∷ b)) × (atoi a ≡ none)))
            ⊎ ((colons s ≡ 2) × (s ≡ parts.0 ++ (b':' ∷ parts.1)) × (colons parts.1 ≡ 0))))

abbrev Splits : Bytes → Result (Bytes × Bytes) → Type 0
Splits s (ok parts) = IsNumeric s parts
Splits s (err e) = Unit

-- The parts have no colon.
abbrev AllBare : List Bytes → Type 0
AllBare ps = All (λ p. colons p ≡ 0) ps

add_byte-AllBare :
    (c : ℕ) (ps : List Bytes) → (c == b':') ≡ false → AllBare ps → AllBare (add_byte c ps)
unfolding add_byte
add_byte-AllBare c [] e h = (ground (arith, e), tt)
add_byte-AllBare c (p ∷ ps) e (h, hs) = (ground (arith, e, h), hs)

split_colon-AllBare : (s : Bytes) → AllBare (split_colon s)
unfolding split_colon
split_colon-AllBare [] = (refl, tt)
split_colon-AllBare (c ∷ s) = elim (Bool-cases (c == b':')) [
  | inl e ↦ rw e (refl, split_colon-AllBare s)
  | inr e ↦ rw e (add_byte-AllBare c (split_colon s) e (split_colon-AllBare s))
]

split_numeric-Splits :
    (s : Bytes) (ps : List Bytes) → SplitFacts s ps → AllBare ps → Splits s (split_numeric s ps)
unfolding split_numeric
split_numeric-Splits s (a ∷ []) f h = inl (omega (arith, f.count), ap (λ t. (t, [])) f.joined)
split_numeric-Splits s (a ∷ b ∷ []) f h = elim (Option-cases (atoi a)) [
  | inl e ↦
      rw (e, split_numeric)
        (inr (inr (inl (omega (arith, f.count), refl, (a, b, sym f.joined, e)))))
  | inr (n, e) ↦ rw (e, split_numeric) (inr (inl (omega (arith, f.count), (sym f.joined, (n, e)))))
]
split_numeric-Splits s (a ∷ b ∷ c ∷ []) f h = inr (
    inr (
      inr (omega (arith, f.count), sym (append_assoc a (b':' ∷ b) (b':' ∷ c) ∙ f.joined), h.1.1.0)))
split_numeric-Splits s [] f h = tt
split_numeric-Splits s (a ∷ b ∷ c ∷ d ∷ ps) f h = tt

-- How a flag is parted: a unix socket's behind its path; another at its first marker of a protocol
-- for the container; and one without a marker by its colons.
abbrev pub IsSplit : Bytes → Bytes × Bytes → Type 0
IsSplit s parts =
    ((has_prefix s (codes "unix://") ≡ true) × IsCut s (unix_cut s) parts)
    ⊎ ((has_prefix s (codes "unix://") ≡ false)
        × (((i : ℕ) × (container_marker s ≡ some i) × IsCut s (some i) parts)
            ⊎ ((container_marker s ≡ none) × IsNumeric s parts)))

abbrev AllSplit : Bytes → Result (Bytes × Bytes) → Type 0
AllSplit s (ok parts) = IsSplit s parts
AllSplit s (err e) = Unit

Splits-AllSplit :
    (s : Bytes) (r : Result (Bytes × Bytes))
    → has_prefix s (codes "unix://") ≡ false
    → container_marker s ≡ none
    → Splits s r
    → AllSplit s r
Splits-AllSplit s (ok parts) p m h = inr (p, inr (m, h))
Splits-AllSplit s (err e) p m h = tt

container_marker-ColonAt : (s : Bytes) → ColonAt s (container_marker s)
container_marker-ColonAt s =
    earlier-ColonAt s _ _
      (earlier-ColonAt s _ _ (index-ColonAt s (codes "unix://")) (index-ColonAt s (codes "tcp://")))
      (index-ColonAt s (codes "udp://"))

split_host_cont-AllSplit : (s : Bytes) → AllSplit s (split_host_cont s)
unfolding split_host_cont split_net
split_host_cont-AllSplit [] = tt
split_host_cont-AllSplit (c ∷ cs) = elim (Bool-cases (has_prefix (c ∷ cs) (codes "unix://"))) [
  | inl e ↦ rw e (inl (e, split_after_unix-IsCut (c ∷ cs)))
  | inr e ↦ elim (Option-cases (container_marker (c ∷ cs))) [
    | inr (i, m) ↦
        rw (e, m) (inr (e, inl (i, m, (sym (rw m at (container_marker-ColonAt (c ∷ cs))), refl))))
    | inl m ↦
        rw (e, m)
          (Splits-AllSplit (c ∷ cs) _ e m (
            split_numeric-Splits (c ∷ cs) _ (split_colon-facts (c ∷ cs))
              (split_colon-AllBare (c ∷ cs))))
  ]
]

pub split_host_cont-IsSplit :
    (s host cont : Bytes) → split_host_cont s ≡ ok (host, cont) → IsSplit s (host, cont)
split_host_cont-IsSplit s host cont e = rw e at (split_host_cont-AllSplit s)

-- The text is its two parts joined by a colon, or the first of them.
pub IsSplit-text :
    (s : Bytes) (parts : Bytes × Bytes)
    → IsSplit s parts
    → (s ≡ parts.0 ++ (b':' ∷ parts.1)) ⊎ ((parts.0 ≡ s) × (parts.1 ≡ []))
IsSplit-text s parts (inl (p, c)) = IsCut-text s (unix_cut s) parts c
IsSplit-text s parts (inr (p, inl (i, m, c))) = IsCut-text s (some i) parts c
IsSplit-text s parts (inr (p, inr (m, inl (n, e)))) = inr (ap (λ q. q.0) e, ap (λ q. q.1) e)
IsSplit-text s parts (inr (p, inr (m, inr (inl (n, (e, k)))))) = inl e
IsSplit-text s parts (inr (p, inr (m, inr (inr (inl (n, e, k)))))) =
    inr (ap (λ q. q.0) e, ap (λ q. q.1) e)
IsSplit-text s parts (inr (p, inr (m, inr (inr (inr (n, e, k)))))) = inl e

-- A flag that is not a unix socket's, names no protocol for the container and has three colons or
-- more is refused, a bracketed IPv6 address as the host among them.
pub split_host_cont-colons :
    (s : Bytes)
    → has_prefix s (codes "unix://") ≡ false
    → container_marker s ≡ none
    → 3 ≤ colons s
    → split_host_cont s ≡ err too_many_colons
unfolding split_host_cont split_net
split_host_cont-colons [] p m h = absurd (omega arith)
split_host_cont-colons (c ∷ cs) p m h =
    rw (p, m) (many (split_colon (c ∷ cs)) (omega (arith, (split_colon-facts (c ∷ cs)).count)))
  where
    many : (ps : List Bytes) → 4 ≤ length ps → split_numeric (c ∷ cs) ps ≡ err too_many_colons
    many [] l = absurd (omega arith)
    many (a ∷ []) l = absurd (omega arith)
    many (a ∷ b ∷ []) l = absurd (omega arith)
    many (a ∷ b ∷ d ∷ []) l = absurd (omega arith)
    many (a ∷ b ∷ d ∷ e ∷ ps) l = refl
