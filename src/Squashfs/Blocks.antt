-- ===== src/Squashfs/Blocks.antt =====
-- A block that pkg/lib/squashfs/writer.go stores is read back, whatever follows it.
use mathlib.Core.Path.{subst}
use sandal.Prelude.{
  ℕ, zero, suc, ◌+◌, ◌/◌, ◌%◌, ◌<◌, ◌≤◌, ◌≡◌, refl, ap, ◌∙◌, inl, inr, true, false, none, some,
  List, [], ◌∷◌, ◌++◌, length, drop, get_elem?, All, ltb, ◌==◌, Bool-cases, arith, take-append_self,
}
use sandal.Prelude.Words.{Bytes}
use sandal.Squashfs.Writer.{Zlib, IsZlib, stored}
use sandal.Squashfs.Reading.{stored_length, read_block}

pub drop-append_le {ℓ} :
    {A : Type ℓ} (n : ℕ) (xs ys : List A) → n ≤ length xs → drop n (xs ++ ys) ≡ drop n xs ++ ys
drop-append_le zero xs ys h = refl
drop-append_le (suc n) [] ys h = elim h [ ]
drop-append_le (suc n) (x ∷ xs) ys h = drop-append_le n xs ys (omega arith)

module _ {ℓ} {A : Type ℓ} where
  pub get_elem?-append :
      (xs ys : List A) (i : ℕ) {a : A} → get_elem? xs i ≡ some a → get_elem? (xs ++ ys) i ≡ some a
  get_elem?-append [] ys i e = absurd (cc)
  get_elem?-append (x ∷ xs) ys zero e = e
  get_elem?-append (x ∷ xs) ys (suc i) e = get_elem?-append xs ys i e

  pub get_elem?-last : (xs : List A) (a : A) → get_elem? (xs ++ a ∷ []) (length xs) ≡ some a
  get_elem?-last [] a = refl
  get_elem?-last (x ∷ xs) a = get_elem?-last xs a

  pub All-snoc {κ} : (P : A → Type κ) (xs : List A) (a : A) → All P xs → P a → All P (xs ++ a ∷ [])
  All-snoc P [] a h p = (p, tt)
  All-snoc P (x ∷ xs) a (h, hs) p = (h, All-snoc P xs a hs p)

  pub get_elem?-past : (xs : List A) → get_elem? xs (length xs) ≡ none
  get_elem?-past [] = refl
  get_elem?-past (x ∷ xs) = get_elem?-past xs

  pub All-get_elem? {κ} :
      (P : A → Type κ) (xs : List A) (i : ℕ) {a : A} → All P xs → get_elem? xs i ≡ some a → P a
  All-get_elem? P [] i h e = absurd (cc)
  All-get_elem? P (x ∷ xs) zero {a} h e = let k : x ≡ a = cc in subst P k h.0
  All-get_elem? P (x ∷ xs) (suc i) h e = All-get_elem? P xs i h.1 e

module _ (z : Zlib) where
  -- The bytes `x` are a block of a size word, whatever follows them, with the contents `d`.
  abbrev pub IsBlock : ℕ → Bytes → Bytes → Type 0
  IsBlock size x d =
      ((r : Bytes) → read_block z size (x ++ r) ≡ some d) × (stored_length size ≡ length x)

  pub stored-IsBlock :
      IsZlib z → (b : Bytes) → length b < 16777216 → IsBlock (stored z b).1 (stored z b).0 b
  unfolding stored
  stored-IsBlock law b h = elim (Bool-cases (ltb (length (z.compress b)) (length b))) [
    | inl e ↦
        (let l : length (z.compress b) < length b = ground arith in
          let u : length (z.compress b) % 4294967296 ≡ length (z.compress b) = omega arith in
          let t : (length (z.compress b) / 16777216 % 2 == 1) ≡ false = ground arith in
          let m : length (z.compress b) % 16777216 ≡ length (z.compress b) = omega arith in
          rw (e, u, t, m)
            (
              λ r. ap z.decompress (take-append_self (z.compress b) r) ∙ law.decompress-compress b,
              refl,
            ))
    | inr e ↦
        (let u : length b % 4294967296 ≡ length b = omega arith in
          let t : (length b / 16777216 % 2 == 0) ≡ true = ground arith in
          let v : ((length b + 16777216) / 16777216 % 2 == 1) ≡ true = ground arith in
          let m : (length b + 16777216) % 16777216 ≡ length b = omega arith in
          rw (e, u, t, v, m) ((λ r. ap some (take-append_self b r)), refl))
  ]

  -- A block takes no more than its contents.
  pub stored-le : (b : Bytes) → length (stored z b).0 ≤ length b
  unfolding stored
  stored-le b = elim (Bool-cases (ltb (length (z.compress b)) (length b))) [
    | inl e ↦ rw e (ground arith)
    | inr e ↦ rw e (omega arith)
  ]
