-- ===== src/Forward/Go/Parts.antt =====
-- What net.SplitHostPort and strings.CutPrefix give is text of their argument.
use sandal.Prelude.{
  ℕ, zero, suc, ◌-◌, ◌≡◌, refl, sym, ap, ◌∙◌, inl, inr, ◌||◌, Option, none, some, [], ◌∷◌, ◌++◌,
  append_assoc, append-nil, take, drop, length, ◌==◌, Bool-cases,
}
use sandal.Prelude.Words.{Bytes}
use sandal.Prelude.Text.{cut_prefix, has_prefix, index_byte, last_index_byte}
use sandal.Forward.Go.{has_byte, checked, bracketed, starts_with_bracket, split_at, split_host_port}

-- A piece of a text.
abbrev pub IsPart : Bytes → Bytes → Type 0
IsPart t s = (a : Bytes) × (b : Bytes) × (s ≡ a ++ (t ++ b))

pub IsPart-refl : (s : Bytes) → IsPart s s
IsPart-refl s = ([], [], sym (append-nil s))

pub IsPart-nil : (s : Bytes) → IsPart [] s
IsPart-nil s = ([], s, refl)

pub IsPart-trans : (r s t : Bytes) → IsPart r s → IsPart s t → IsPart r t
IsPart-trans r s t (a, b, e) (c, d, f) = (
  c ++ a,
  b ++ d,
  f
      ∙ (ap (λ x. c ++ (x ++ d)) e
          ∙ (ap (λ x. c ++ x) (append_assoc a (r ++ b) d ∙ ap (λ x. a ++ x) (append_assoc r b d))
              ∙ sym (append_assoc c a (r ++ (b ++ d))))),
)

take-append-drop : (n : ℕ) (s : Bytes) → s ≡ take n s ++ drop n s
take-append-drop zero s = refl
take-append-drop (suc n) [] = refl
take-append-drop (suc n) (x ∷ s) = ap (◌∷◌ x) (take-append-drop n s)

take-IsPart : (n : ℕ) (s : Bytes) → IsPart (take n s) s
take-IsPart n s = ([], drop n s, take-append-drop n s)

drop-IsPart : (n : ℕ) (s : Bytes) → IsPart (drop n s) s
drop-IsPart n s =
    (take n s, [], take-append-drop n s ∙ ap (λ x. take n s ++ x) (sym (append-nil (drop n s))))

pub cut_prefix-IsPart : (s p rest : Bytes) → cut_prefix s p ≡ some rest → IsPart rest s
unfolding cut_prefix
cut_prefix-IsPart s p rest e = elim (Bool-cases (has_prefix s p)) [
  | inl h ↦
      (let q : drop (length p) s ≡ rest = cc (rw h at e) in rw (← q) (drop-IsPart (length p) s))
  | inr h ↦ (let q : none ≡ some rest = rw h at e in absurd cc)
]

-- Both are pieces of the text.
abbrev AreParts : Bytes → Option (Bytes × Bytes) → Type 0
AreParts s none = Unit
AreParts s (some (host, port)) = IsPart host s × IsPart port s

checked-AreParts :
    (s : Bytes) (i j k : ℕ) (host : Bytes) → IsPart host s → AreParts s (checked s i j k host)
unfolding checked
checked-AreParts s i j k host h =
    elim (Bool-cases (has_byte b'[' (drop j s) || has_byte b']' (drop k s))) [
      | inl e ↦ rw e tt
      | inr e ↦ rw e (h, drop-IsPart (suc i) s)
    ]

bracketed-AreParts : (s : Bytes) (i : ℕ) (o : Option ℕ) → AreParts s (bracketed s i o)
unfolding bracketed
bracketed-AreParts s i none = tt
bracketed-AreParts s i (some e) = elim (Bool-cases (suc e == i)) [
  | inl q ↦ rw q (
      checked-AreParts s i 1 (suc e) _ (
        IsPart-trans (take (e - 1) (drop 1 s)) (drop 1 s) s (take-IsPart (e - 1) (drop 1 s))
          (drop-IsPart 1 s)))
  | inr q ↦ rw q tt
]

split_at-AreParts : (s : Bytes) (o : Option ℕ) → AreParts s (split_at s o)
unfolding split_at
split_at-AreParts s none = tt
split_at-AreParts s (some i) = elim (Bool-cases (starts_with_bracket s)) [
  | inl b ↦ rw b (bracketed-AreParts s i (index_byte s b']'))
  | inr b ↦ elim (Bool-cases (has_byte b':' (take i s))) [
    | inl c ↦ rw (b, c) tt
    | inr c ↦ rw (b, c) (checked-AreParts s i 0 0 (take i s) (take-IsPart i s))
  ]
]

pub split_host_port-IsPart :
    (s host port : Bytes) → split_host_port s ≡ some (host, port) → IsPart host s × IsPart port s
unfolding split_host_port
split_host_port-IsPart s host port e = rw e at (split_at-AreParts s (last_index_byte s b':'))
