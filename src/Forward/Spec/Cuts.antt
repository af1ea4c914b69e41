-- ===== src/Forward/Spec/Cuts.antt =====
-- The places at which splitHostCont and splitAfterUnix (pkg/container/forward/spec.go) cut a flag.
use sandal.Prelude.{
  ℕ, suc, ◌≡◌, refl, sym, ap, ◌⊎◌, inl, inr, ◌&&◌, Option, none, some, [], ◌∷◌, ◌++◌, arith, take,
  drop, length, ltb, ◌==◌, Bool-cases, Option-cases,
}
use mathlib.Core.Option
use sandal.Prelude.Words.{Bytes}
use sandal.Prelude.Text.{codes, has_prefix, index, last_index_byte}
use sandal.Forward.Spec.{earlier, trailing_port, all_digits, cut_at, split_after_unix}

-- Where there is a place, a colon stands at it.
abbrev pub ColonAt : Bytes → Option ℕ → Type 0
ColonAt s none = Unit
ColonAt s (some i) = take i s ++ (b':' ∷ drop (suc i) s) ≡ s

ColonAt-suc : (x : ℕ) (s : Bytes) (o : Option ℕ) → ColonAt s o → ColonAt (x ∷ s) (Option.map suc o)
ColonAt-suc x s none h = tt
ColonAt-suc x s (some i) h = ap (◌∷◌ x) h

pub index-ColonAt : (s t : Bytes) → ColonAt s (index s (b':' ∷ t))
unfolding index
index-ColonAt [] t = tt
index-ColonAt (x ∷ s) t = elim (Bool-cases (has_prefix (x ∷ s) (b':' ∷ t))) [
  | inl e ↦ rw e (ground (arith, e))
  | inr e ↦ rw e (ColonAt-suc x s (index s (b':' ∷ t)) (index-ColonAt s t))
]

last_index_byte-ColonAt : (s : Bytes) → ColonAt s (last_index_byte s b':')
unfolding last_index_byte
last_index_byte-ColonAt [] = tt
last_index_byte-ColonAt (x ∷ s) = elim (Option-cases (last_index_byte s b':')) [
  | inl e ↦ rw e (elim (Bool-cases (x == b':')) [ inl c ↦ rw c (ground arith) | inr c ↦ rw c tt ])
  | inr (i, e) ↦ rw e (ap (◌∷◌ x) (rw e at (last_index_byte-ColonAt s)))
]

pub earlier-ColonAt :
    (s : Bytes) (i j : Option ℕ) → ColonAt s i → ColonAt s j → ColonAt s (earlier i j)
unfolding earlier
earlier-ColonAt s none j h k = k
earlier-ColonAt s (some i) none h k = h
earlier-ColonAt s (some i) (some j) h k = elim (Bool-cases (ltb j i)) [
  | inl e ↦ rw e k
  | inr e ↦ rw e h
]

trailing_port-ColonAt : (s : Bytes) → ColonAt s (trailing_port s)
unfolding trailing_port
trailing_port-ColonAt s = elim (Option-cases (last_index_byte s b':')) [
  | inl e ↦ rw (e, trailing_port) tt
  | inr (i, e) ↦
      rw (e, trailing_port)
        (elim (Bool-cases (ltb (suc i) (length s) && all_digits (drop (suc i) s))) [
          | inl d ↦ rw d (rw e at (last_index_byte-ColonAt s))
          | inr d ↦ rw d tt
        ])
]

-- Where the place is: the text is cut at its colon, or there is none.
abbrev pub IsCut : Bytes → Option ℕ → Bytes × Bytes → Type 0
IsCut s none parts = (parts.0 ≡ s) × (parts.1 ≡ [])
IsCut s (some i) parts = (s ≡ parts.0 ++ (b':' ∷ parts.1)) × (parts ≡ (take i s, drop (suc i) s))

cut_at-IsCut : (s : Bytes) (o : Option ℕ) → ColonAt s o → IsCut s o (cut_at s o)
unfolding cut_at
cut_at-IsCut s none h = (refl, refl)
cut_at-IsCut s (some i) h = (sym h, refl)

pub IsCut-text :
    (s : Bytes) (o : Option ℕ) (parts : Bytes × Bytes)
    → IsCut s o parts
    → (s ≡ parts.0 ++ (b':' ∷ parts.1)) ⊎ ((parts.0 ≡ s) × (parts.1 ≡ []))
IsCut-text s none parts h = inr h
IsCut-text s (some i) parts h = inl h.0

-- The first protocol marker behind a unix socket's path, or its trailing port.
abbrev pub unix_cut : Bytes → Option ℕ
unix_cut s =
    earlier
      (earlier
        (earlier (earlier (index s (codes ":tcp://")) (index s (codes ":udp://")))
          (index s (codes ":tls://")))
        (index s (codes ":unix://")))
      (trailing_port s)

pub split_after_unix-IsCut : (s : Bytes) → IsCut s (unix_cut s) (split_after_unix s)
unfolding split_after_unix
split_after_unix-IsCut s = cut_at-IsCut s (unix_cut s) (
    earlier-ColonAt s _ _
      (earlier-ColonAt s _ _
        (earlier-ColonAt s _ _
          (earlier-ColonAt s _ _ (index-ColonAt s (codes "tcp://"))
            (index-ColonAt s (codes "udp://")))
          (index-ColonAt s (codes "tls://")))
        (index-ColonAt s (codes "unix://")))
      (trailing_port-ColonAt s))
