-- ===== src/Kvm/Block/Splice.antt =====
-- Files that are written at an offset: two writes in a row are one, and what was written is there.
use sandal.Prelude.{
  ◌≡◌, refl, ap, sym, ◌∙◌, ℕ, ◌+◌, [], ◌∷◌, ◌++◌, length, take, drop, replicate, arith,
  append_assoc, append-nil, length-append, length-take, length-replicate, drop-append_past,
  take-append_past, drop-drop, take-append_self,
}
use sandal.Prelude.Words.{Bytes}
use sandal.Kvm.Block.{splice}

-- The bytes before the offset, with zeros where the file has none.
abbrev pub before : Bytes → ℕ → Bytes
before c offset = take offset (c ++ replicate offset 0)

length-before : (c : Bytes) (offset : ℕ) → length (before c offset) ≡ offset
length-before c offset = omega (
  arith,
  length-take offset (c ++ replicate offset 0),
  length-append c (replicate offset 0),
  length-replicate {A = ℕ} offset 0,
)

pub drop-splice :
    (c : Bytes) (offset : ℕ) (d : Bytes)
    → drop offset (splice c offset d) ≡ d ++ drop (offset + length d) c
unfolding splice
drop-splice c offset [] = ap (λ k. drop k c) (omega arith)
drop-splice c offset (b ∷ bs) =
    drop-append_past offset 0 (before c offset) ((b ∷ bs) ++ drop (offset + length (b ∷ bs)) c)
      (omega (arith, length-before c offset))

before-splice :
    (c : Bytes) (offset : ℕ) (d : Bytes)
    → before (splice c offset d) (offset + length d) ≡ before c offset ++ d
unfolding splice
before-splice c offset [] =
    let e : offset + 0 ≡ offset = omega arith in
    ap (before c) e ∙ sym (append-nil (before c offset))
before-splice c offset (b ∷ bs) =
    let d : Bytes = b ∷ bs in
    let n : ℕ = offset + length d in
    let tail : Bytes = drop n c in
    let zeros : Bytes = replicate n 0 in
    ap (take n) (
      append_assoc (before c offset) (d ++ tail) zeros
      ∙ ap (λ x. before c offset ++ x) (append_assoc d tail zeros))
    ∙ take-append_past n (length d) (before c offset) (d ++ (tail ++ zeros))
        (omega (arith, length-before c offset))
    ∙ ap (λ x. before c offset ++ x) (take-append_self d (tail ++ zeros))

-- What two writes leave behind their end.
drop-splice_past :
    (c : Bytes) (offset n : ℕ) (d : Bytes)
    → drop (offset + length d + n) (splice c offset d) ≡ drop (offset + length d + n) c
drop-splice_past c offset n d =
    sym (drop-drop (offset + length d + n) offset (length d + n) (splice c offset d) (omega arith))
    ∙ ap (drop (length d + n)) (drop-splice c offset d)
    ∙ drop-append_past (length d + n) n d (drop (offset + length d) c) refl
    ∙ drop-drop (offset + length d + n) (offset + length d) n c refl

pub splice-splice :
    (c : Bytes) (offset : ℕ) (d e : Bytes)
    → splice (splice c offset d) (offset + length d) e ≡ splice c offset (d ++ e)
unfolding splice
splice-splice c offset [] [] = refl
splice-splice c offset [] (x ∷ e) =
    let n : offset + 0 ≡ offset = omega arith in ap (λ k. splice c k (x ∷ e)) n
splice-splice c offset (b ∷ bs) [] = ap (splice c offset) (sym (append-nil (b ∷ bs)))
splice-splice c offset (b ∷ bs) (x ∷ xs) =
    let d : Bytes = b ∷ bs in
    let e : Bytes = x ∷ xs in
    let n : offset + length d + length e ≡ offset + length (d ++ e) =
      omega (arith, length-append d e) in
    ap (λ y. y ++ (e ++ drop (offset + length d + length e) (splice c offset d)))
      (before-splice c offset d)
    ∙ ap (λ y. (before c offset ++ d) ++ (e ++ y)) (drop-splice_past c offset (length e) d)
    ∙ ap (λ k. (before c offset ++ d) ++ (e ++ drop k c)) n
    ∙ append_assoc (before c offset) d (e ++ drop (offset + length (d ++ e)) c)
    ∙ ap (λ y. before c offset ++ y) (sym (append_assoc d e (drop (offset + length (d ++ e)) c)))
