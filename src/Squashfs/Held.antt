-- ===== src/Squashfs/Held.antt =====
-- A file's data in an image of pkg/lib/squashfs/writer.go, and that it stays there.
use sandal.Prelude.{
  ℕ, ◌+◌, ◌-◌, ◌%◌, ◌<◌, ◌≤◌, ◌≡◌, refl, ap, sym, ◌∙◌, inl, inr, ◌⊎◌, true, false, Option, none,
  some, List, [], ◌∷◌, ◌++◌, append_assoc, append-nil, length, take, drop, leb, ◌==◌, Bool-cases,
  Option-cases, arith, take-append_le, drop-append_self, length-append, length-drop,
}
use sandal.Prelude.Words.{Bytes}
use sandal.Squashfs.Writer.{Zlib, Writer, Placed, header_size}
use sandal.Squashfs.Reading.{joined, cut_out, read_blocks, fragment_bytes, read_file_data}
use sandal.Squashfs.Blocks.{IsBlock, drop-append_le}
use sandal.Squashfs.Extending.{Extends}

module _ (z : Zlib) where
  -- The bytes `a` are blocks of these size words, with the contents `e`.
  abbrev pub IsLaid : List ℕ → Bytes → Bytes → Type 0
  IsLaid [] a e = (a ≡ []) × (e ≡ [])
  IsLaid (s ∷ ss) a e =
      (x : Bytes) × (y : Bytes) × (d : Bytes) × (f : Bytes) × (a ≡ x ++ y)
      × (e ≡ d ++ f)
      × IsBlock z s x d
      × IsLaid ss y f

  IsLaid-read : (ss : List ℕ) (a e r : Bytes) → IsLaid ss a e → read_blocks z ss (a ++ r) ≡ some e
  unfolding read_blocks
  IsLaid-read [] a e r (_, q) = ap some (sym q)
  IsLaid-read (s ∷ ss) a e r (x, y, d, f, p, q, (reads, l), h) =
      rw
        (
          p,
          append_assoc x y r,
          reads (y ++ r),
          l,
          drop-append_self x (y ++ r),
          IsLaid-read ss y f r h,
        )
        (ap some (sym q))

  pub IsLaid-snoc :
      (ss : List ℕ) (s : ℕ) (a e x d : Bytes)
      → IsLaid ss a e
      → IsBlock z s x d
      → IsLaid (ss ++ s ∷ []) (a ++ x) (e ++ d)
  IsLaid-snoc [] s a e x d (p, q) b =
      (x, [], d, [], rw p (sym (append-nil x)), rw q (sym (append-nil d)), b, (refl, refl))
  IsLaid-snoc (t ∷ ss) s a e x d (u, y, c, f, p, q, k, h) b = (
    u,
    y ++ x,
    c,
    f ++ d,
    ap (λ o. o ++ x) p ∙ append_assoc u y x,
    ap (λ o. o ++ d) q ∙ append_assoc c f d,
    k,
    IsLaid-snoc ss s y f x d h b,
  )

  -- A file of `size` bytes with this content stands in the image.
  pub record IsHeld (p : Placed) (size : ℕ) (content : Bytes) (w : Writer) : Type 0 where
    pub before : Bytes
    pub behind : Bytes
    pub laid : Bytes
    pub body : Bytes
    pub piece : Bytes
    pub image : w.out ≡ before ++ (laid ++ behind)
    pub first : length before ≡ p.start_block - header_size
    pub blocks : IsLaid p.block_sizes laid body
    pub whole : content ≡ body ++ piece
    pub rest :
        ((p.frag_idx ≡ 4294967295) × (piece ≡ []))
        ⊎ ((p.frag_idx < 4294967295)
            × (cut_out p.frag_off (size % w.block_size) (fragment_bytes z p.frag_idx w)
                ≡ some piece))

  joined-some :
      (o q : Option Bytes) (x y : Bytes) → o ≡ some x → q ≡ some y → joined o q ≡ some (x ++ y)
  joined-some o q x y e f = rw (e, f) refl

  pub IsHeld-read :
      (p : Placed) (size : ℕ) (content : Bytes) (w : Writer)
      → IsHeld p size content w
      → read_file_data z p size w ≡ some content
  unfolding read_file_data
  IsHeld-read p size content w h =
      joined-some _ _ h.body h.piece
        (ap (read_blocks z p.block_sizes)
            (rw (h.image, sym h.first) (drop-append_self h.before (h.laid ++ h.behind)))
          ∙ IsLaid-read p.block_sizes h.laid h.body h.behind h.blocks)
        (elim h.rest [
          | inl (e, n) ↦ rw (e, n) refl
          | inr (l, c) ↦ (let k : (p.frag_idx == 4294967295) ≡ false = ground arith in rw k c)
        ])
      ∙ ap some (sym h.whole)

  cut_out-longer :
      (off n : ℕ) (b x t : Bytes)
      → cut_out off n (some b) ≡ some t
      → cut_out off n (some (b ++ x)) ≡ some t
  cut_out-longer off n b x t e = elim (Bool-cases (leb (off + n) (length b))) [
    | inr k ↦ (let g : none ≡ some t = rw k at e in absurd (cc))
    | inl k ↦
        (let l : off + n ≤ length b = ground arith in
          let m : leb (off + n) (length (b ++ x)) ≡ true = ground (arith, length-append b x) in
          let g : some (take n (drop off b)) ≡ some t = rw k at e in
          rw
            (
              m,
              drop-append_le off b x (omega arith),
              take-append_le n (drop off b) x (omega (arith, length-drop off b)),
            )
            g)
  ]

  piece-longer :
      (i off n : ℕ) (t : Bytes) (w v : Writer)
      → Extends z w v
      → cut_out off n (fragment_bytes z i w) ≡ some t
      → cut_out off n (fragment_bytes z i v) ≡ some t
  piece-longer i off n t w v g c = elim (Option-cases (fragment_bytes z i w)) [
    | inl e ↦ (let f : none ≡ some t = rw e at c in absurd (cc))
    | inr (b, e) ↦
        (let (x, f) = g.fragment_longer i b e in rw f (cut_out-longer off n b x t (rw e at c)))
  ]

  -- What is written later leaves the file in place.
  pub IsHeld-Extends :
      (p : Placed) (size : ℕ) (content : Bytes) (w v : Writer)
      → Extends z w v
      → IsHeld p size content w
      → IsHeld p size content v
  IsHeld-Extends p size content w v g h = record {
    before = h.before;
    behind = h.behind ++ g.more;
    laid = h.laid;
    body = h.body;
    piece = h.piece;
    image =
        g.longer
        ∙ (ap (λ o. o ++ g.more) h.image
            ∙ (append_assoc h.before (h.laid ++ h.behind) g.more
                ∙ ap (λ o. h.before ++ o) (append_assoc h.laid h.behind g.more)));
    first = h.first;
    blocks = h.blocks;
    whole = h.whole;
    rest = elim h.rest [
      | inl e ↦ inl e
      | inr (l, c) ↦ inr (
        l,
        ap (λ m. cut_out p.frag_off (size % m) (fragment_bytes z p.frag_idx v)) g.same_size
            ∙ (piece-longer p.frag_idx p.frag_off (size % w.block_size) h.piece w v g c),
      )
    ];
  }
