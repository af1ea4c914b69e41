-- ===== src/Build/Numbers.antt =====
-- The lines on which the instructions of a Dockerfile start (pkg/lib/container/build/dockerfile.go).
use sandal.Prelude.{
  ◌≡◌, refl, ◌⊎◌, inl, inr, ℕ, suc, ◌+◌, ◌≤◌, ◌<◌, Bool, true, false, Option, none, some, List, [],
  ◌∷◌, ◌++◌, if◌then◌else◌, length, Bool-cases, arith, ◌==◌,
}
use sandal.Prelude.Words.{Bytes}
use sandal.Prelude.Text.{codes, has_prefix}
use sandal.Build.Text.{is_blank, trim_left, trim_right, trim_space, trim_space-nil}
use sandal.Build.Tokens.{Parsed, parsed, failed, scan_failed, ◌>>=◌, non_empty, split_first}
use sandal.Build.Instruction.{
  Instruction, InstrKind, shell_args, exec_form, parse_args, with_kind, parse_instruction,
  parse_kind,
}
use sandal.Build.Lines.{
  Parser, new_parser, start_of, ends_with, flush, text_line, comment_line, parse_directive,
  scan_line, scan_lines, parse_dockerfile,
}

-- The instructions start on ever later lines, behind line `lo` and up to line `hi`.
abbrev pub InOrder : ℕ → List Instruction → ℕ → Type 0
InOrder lo [] hi = lo ≤ hi
InOrder lo (i ∷ is) hi = (lo < i.line) × InOrder i.line is hi

InOrder-append :
    (lo m hi : ℕ) (is : List Instruction) (i : Instruction)
    → InOrder lo is m
    → m < i.line
    → i.line ≤ hi
    → InOrder lo (is ++ i ∷ []) hi
InOrder-append lo m hi [] i h l u = (omega arith, u)
InOrder-append lo m hi (j ∷ is) i h l u = (h.0, InOrder-append j.line m hi is i h.1 l u)

InOrder-later : (lo m hi : ℕ) (is : List Instruction) → InOrder lo is m → m ≤ hi → InOrder lo is hi
InOrder-later lo m hi [] h l = omega arith
InOrder-later lo m hi (j ∷ is) h l = (h.0, InOrder-later j.line m hi is h.1 l)

abbrev Holds {ℓ κ} : {A : Type ℓ} → (A → Type κ) → Parsed A → Type κ
Holds P (parsed a) = P a
Holds P (failed e) = Unit

Holds-bind {ℓ κ μ ν} :
    {A : Type ℓ} {B : Type κ}
    → (P : A → Type μ) (Q : B → Type ν) (r : Parsed A) (f : A → Parsed B) → Holds P r
    → ((a : A) → P a → Holds Q (f a))
    → Holds Q (r >>= f)
Holds-bind P Q (parsed a) f h k = k a h
Holds-bind P Q (failed e) f h k = tt

Holds-map {ℓ κ μ} :
    {A : Type ℓ} (P : A → Type κ) (Q : A → Type μ) (r : Parsed A)
    → Holds P r
    → ((a : A) → P a → Q a)
    → Holds Q r
Holds-map P Q (parsed a) h k = k a h
Holds-map P Q (failed e) h k = tt

Holds-Unit {ℓ} : {A : Type ℓ} (r : Parsed A) → Holds {ℓ, 0} (λ _. Unit) r
Holds-Unit (parsed a) = tt
Holds-Unit (failed e) = tt

-- What holds when line `cur` is read and the instructions up to line `done` are there: they end
-- before the one that the buffer holds.
record IsNumbered (done cur : ℕ) (p : Parser) : Type 0 where
  last : ℕ
  ordered : InOrder 0 p.instrs last
  current : p.cur_line ≡ cur
  last_le : last ≤ done
  pending : (p.buf ≡ []) ⊎ ((last < p.start_line) × (p.start_line ≤ cur))

widened : (n : ℕ) (p : Parser) → IsNumbered n (suc n) p → IsNumbered (suc n) (suc n) p
widened n p h = record {
  last = h.last;
  ordered = h.ordered;
  current = h.current;
  last_le = omega (arith, h.last_le);
  pending = h.pending;
}

allowed :
    (n : ℕ) (p : Parser)
    → IsNumbered n n p
    → IsNumbered n n (record p { directives_allowed = false })
allowed n p h = record {
  last = h.last;
  ordered = h.ordered;
  current = h.current;
  last_le = h.last_le;
  pending = h.pending;
}

comment_line-IsNumbered :
    (n : ℕ) (p : Parser)
    → IsNumbered n (suc n) p
    → (d : Option (Bytes × Bytes)) → IsNumbered (suc n) (suc n) (comment_line p d)
unfolding comment_line
comment_line-IsNumbered n p h none = allowed (suc n) p (widened n p h)
comment_line-IsNumbered n p h (some (d, v)) = elim (Bool-cases p.directives_allowed) [
  | inr e ↦ simp e (widened n p h)
  | inl e ↦ rw e (record {
    last = h.last;
    ordered = h.ordered;
    current = h.current;
    last_le = omega (arith, h.last_le);
    pending = h.pending;
  })
]

parse_args_line :
    (exec : Option (List Bytes)) (kind : InstrKind) (flags : List (Bytes × Bytes))
    (rest raw : Bytes) (n : ℕ)
    → Holds (λ i. i.line ≡ n) (parse_args exec kind flags rest raw n)
unfolding parse_args
parse_args_line (some args) kind flags rest raw n = refl
parse_args_line none kind flags rest raw n =
    Holds-bind (λ _. Unit) _ (shell_args kind rest) _ (Holds-Unit (shell_args kind rest))
      (λ args _. refl)

module _ (unmarshal : Bytes → Option (List Bytes)) where
  parse_instruction_line :
      (raw : Bytes) (n : ℕ) → Holds (λ i. i.line ≡ n) (parse_instruction unmarshal raw n)
  unfolding parse_instruction with_kind
  parse_instruction_line raw n = by_kind (parse_kind (split_first raw).0) _ _
    where
      by_kind :
          (kind : Option InstrKind) (flags : List (Bytes × Bytes)) (rest : Bytes)
          → Holds (λ i. i.line ≡ n) (with_kind unmarshal kind flags rest raw n)
      by_kind none flags rest = tt
      by_kind (some kind) flags rest =
          parse_args_line (exec_form unmarshal rest) kind flags rest raw n

  flush-IsNumbered :
      (n : ℕ) (p : Parser)
      → IsNumbered n n p
      → Holds (λ q. IsNumbered n n q × (q.buf ≡ [])) (flush unmarshal p)
  unfolding flush
  flush-IsNumbered n p h = elim h.pending [
    | inl e ↦ rw (e, trim_space-nil) (emptied, refl)
    | inr (l, u) ↦ elim (Bool-cases (non_empty (trim_space p.buf))) [
      | inl e ↦ rw e (
          Holds-bind (λ i. i.line ≡ p.start_line) _ _ _
            (parse_instruction_line (trim_space p.buf) p.start_line) (λ i f. (added l u i f, refl)))
      | inr e ↦ rw e (emptied, refl)
    ]
  ]
    where
      emptied : IsNumbered n n (record p { buf = [] })
      emptied = record {
        last = h.last;
        ordered = h.ordered;
        current = h.current;
        last_le = h.last_le;
        pending = inl refl;
      }

      added :
          h.last < p.start_line
          → p.start_line ≤ n
          → (i : Instruction) → i.line ≡ p.start_line
          → IsNumbered n n (record p { buf = []; instrs = p.instrs ++ i ∷ [] })
      added l u i f = record {
        last = i.line;
        ordered =
            InOrder-append 0 h.last i.line p.instrs i h.ordered (omega (arith, f)) (omega arith);
        current = h.current;
        last_le = omega (arith, f);
        pending = inl refl;
      }

  start_of-bounds :
      (n : ℕ) (p : Parser) (h : IsNumbered n (suc n) p)
      → (h.last < start_of p) × (start_of p ≤ suc n)
  unfolding start_of
  start_of-bounds n p h = elim (Bool-cases (non_empty p.buf)) [
    | inr e ↦ rw e (omega (arith, h.current, h.last_le), omega (arith, h.current))
    | inl e ↦ elim h.pending [
      | inr (l, u) ↦ rw e (l, u)
      | inl f ↦ let g : false ≡ true = rw f at e in ground arith
    ]
  ]

  text_line-IsNumbered :
      (n : ℕ) (p : Parser) (line : Bytes)
      → IsNumbered n (suc n) p
      → Holds (IsNumbered (suc n) (suc n)) (text_line unmarshal p line)
  unfolding text_line
  text_line-IsNumbered n p line h =
      elim (Bool-cases (ends_with (trim_right is_blank line) p.escape)) [
        | inl e ↦ rw e (held _)
        | inr e ↦
            rw e
              (Holds-map _ _ (flush unmarshal _) (flush-IsNumbered (suc n) _ (held _)) (λ q k. k.0))
      ]
    where
      held :
          (buf : Bytes)
          → IsNumbered
              (suc n)
              (suc n)
              (record p { directives_allowed = false; start_line = start_of p; buf = buf })
      held buf = record {
        last = h.last;
        ordered = h.ordered;
        current = h.current;
        last_le = omega (arith, h.last_le);
        pending = inr (start_of-bounds n p h);
      }

  module _ (is_key : Bytes → Bool) (to_lower : Bytes → Bytes) where
    scan_line-IsNumbered :
        (n : ℕ) (p : Parser) (line : Bytes)
        → IsNumbered n n p
        → Holds (IsNumbered (suc n) (suc n)) (scan_line unmarshal is_key to_lower p line)
    unfolding scan_line
    scan_line-IsNumbered n p scanned h =
        elim (Bool-cases (has_prefix (trim_left (trim_right (λ c. c == 13) scanned)) (codes "#"))) [
          | inl e ↦ rw e (comment_line-IsNumbered n _ opened (parse_directive is_key to_lower _))
          | inr e ↦ elim (Bool-cases (non_empty (trim_space (trim_right (λ c. c == 13) scanned)))) [
            | inl f ↦ rw (e, f) (text_line-IsNumbered n _ _ opened)
            | inr f ↦
                rw (e, f)
                  (Holds-bind _ _ (flush unmarshal _) _
                    (flush-IsNumbered (suc n) _ (widened _ _ opened)) (λ q k. allowed _ _ k.0))
          ]
        ]
      where
        opened : IsNumbered n (suc n) (record p { cur_line = p.cur_line + 1 })
        opened = record {
          last = h.last;
          ordered = h.ordered;
          current = omega (arith, h.current);
          last_le = h.last_le;
          pending = elim h.pending [ inl e ↦ inl e | inr (l, u) ↦ inr (l, omega arith) ];
        }

    scan_lines-IsNumbered :
        (n : ℕ) (p : Parser) (lines : List Bytes)
        → IsNumbered n n p
        → Holds
            (IsNumbered (n + length lines) (n + length lines))
            (scan_lines unmarshal is_key to_lower p lines)
    unfolding scan_lines
    scan_lines-IsNumbered n p [] h = let e : n + 0 ≡ n = omega arith in rw e h
    scan_lines-IsNumbered n p (line ∷ lines) h =
        let e : n + suc (length lines) ≡ suc n + length lines = omega arith in
        rw e (
          Holds-bind _ _ (scan_line unmarshal is_key to_lower p line) _
            (scan_line-IsNumbered n p line h) (λ q k. scan_lines-IsNumbered (suc n) q lines k))

    numbered :
        (lines : List Bytes) (scanner_ok : Bool)
        → Holds
            (λ is. InOrder 0 is (length lines))
            (parse_dockerfile unmarshal is_key to_lower lines scanner_ok)
    unfolding parse_dockerfile
    numbered lines scanner_ok =
        Holds-bind _ _ (scan_lines unmarshal is_key to_lower new_parser lines) _
          (scan_lines-IsNumbered 0 new_parser lines start) (λ p h. at_end p h scanner_ok)
      where
        start : IsNumbered 0 0 new_parser
        start = record {
          last = 0;
          ordered = omega arith;
          current = refl;
          last_le = omega arith;
          pending = inl refl;
        }

        at_end :
            (p : Parser)
            → IsNumbered (0 + length lines) (0 + length lines) p
            → (ok : Bool)
            → Holds
                (λ is. InOrder 0 is (length lines))
                ((if ok then flush unmarshal p else failed scan_failed) >>= (λ q. parsed q.instrs))
        at_end p h true =
            Holds-bind _ _ (flush unmarshal p) _ (flush-IsNumbered (0 + length lines) p h) (λ q k.
              InOrder-later 0 k.0.last (length lines) q.instrs k.0.ordered
                (omega (arith, k.0.last_le)))
        at_end p h false = tt

    -- The instructions of a Dockerfile are in source order: each starts on a line behind the one
    -- before, from line 1 to the last.
    pub parse_dockerfile-InOrder :
        (lines : List Bytes) (scanner_ok : Bool) (instrs : List Instruction)
        → parse_dockerfile unmarshal is_key to_lower lines scanner_ok ≡ parsed instrs
        → InOrder 0 instrs (length lines)
    parse_dockerfile-InOrder lines scanner_ok instrs e = rw e at (numbered lines scanner_ok)
