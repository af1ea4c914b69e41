-- ===== src/Dhcp/Parse.antt =====
-- What ParseOptions (pkg/lib/dhcp/options.go) does on any input, well formed or not.
use sandal.Prelude.{
  ℕ, zero, suc, ◌+◌, ◌≤◌, ◌<◌, ◌≡◌, ◌≢◌, refl, ap, ◌∙◌, inl, inr, false, [], ◌∷◌, ◌++◌, arith,
  length, take, drop, length-append, length-take, length-drop, All, All-drop, Bool-cases, ltb, ◌==◌,
}
use sandal.Prelude.Words.{Bytes, IsByte}
use sandal.Dhcp.Options.{
  DhcpOption, Options, Parsed, ok, failed, out_of_fuel, prepend, is_marker, marshal_options,
  parse_loop, parse_options, opt_end, opt_pad,
}
use sandal.Dhcp.RoundTrip.{without_markers, Fits, parse_options-marshal_options}

prepend-ne-out_of_fuel : (o : DhcpOption) (r : Parsed) → r ≢ out_of_fuel → prepend o r ≢ out_of_fuel
prepend-ne-out_of_fuel o (ok opts) h = λ e. cc
prepend-ne-out_of_fuel o (failed opts x) h = λ e. cc
prepend-ne-out_of_fuel o out_of_fuel h = h

-- Each round takes a byte at least.
parse_loop_enough : (fuel : ℕ) (b : Bytes) → length b < fuel → parse_loop fuel b ≢ out_of_fuel
unfolding parse_loop
parse_loop_enough zero b h = absurd (omega arith)
parse_loop_enough (suc fuel) [] h = λ e. cc
parse_loop_enough (suc fuel) (code ∷ []) h = ground (arith, parse_loop_enough fuel [])
parse_loop_enough (suc fuel) (code ∷ n ∷ rest) h = ground (
  arith,
  parse_loop_enough fuel (n ∷ rest),
  length-drop n rest,
  prepend-ne-out_of_fuel (record { code = code; payload = take n rest })
      (parse_loop fuel (drop n rest))
      (parse_loop_enough fuel (drop n rest) (omega (arith, length-drop n rest))),
)

-- ParseOptions ends on every input: with the options it read, or with them and an error.
pub parse_options_total : (b : Bytes) → parse_options b ≢ out_of_fuel
unfolding parse_options
parse_options_total b = parse_loop_enough (suc (length b)) b (omega arith)

abbrev IsClean : Bytes → Options → Type 0
IsClean b opts =
    All Fits opts × (without_markers opts ≡ opts) × (length (marshal_options opts) ≤ length b)

abbrev Yields : Bytes → Parsed → Type 0
Yields b (ok opts) = IsClean b opts
Yields b (failed opts e) = IsClean b opts
Yields b out_of_fuel = Unit

IsClean-nil : (b : Bytes) → IsClean b []
unfolding marshal_options
IsClean-nil b = (tt, refl, omega arith)

IsClean-cons :
    (b rest : Bytes) (o : DhcpOption) (opts : Options)
    → Fits o
    → is_marker o ≡ false
    → length o.payload + length rest + 2 ≤ length b
    → IsClean rest opts
    → IsClean b (o ∷ opts)
unfolding marshal_options
IsClean-cons b rest o opts f m h (fs, e, l) = (
  (f, fs),
  rw m (ap (◌∷◌ o) e),
  rw m (omega (arith, length-append o.payload (marshal_options opts))),
)

prepend-Yields :
    (b rest : Bytes) (o : DhcpOption) (r : Parsed)
    → Fits o
    → is_marker o ≡ false
    → length o.payload + length rest + 2 ≤ length b
    → Yields rest r
    → Yields b (prepend o r)
prepend-Yields b rest o (ok opts) f m h y = IsClean-cons b rest o opts f m h y
prepend-Yields b rest o (failed opts e) f m h y = IsClean-cons b rest o opts f m h y
prepend-Yields b rest o out_of_fuel f m h y = tt

Yields-longer : (x : ℕ) (b : Bytes) (r : Parsed) → Yields b r → Yields (x ∷ b) r
Yields-longer x b (ok opts) y = (y.0, y.1, omega arith)
Yields-longer x b (failed opts e) y = (y.0, y.1, omega arith)
Yields-longer x b out_of_fuel y = tt

parse_loop-Yields : (fuel : ℕ) (b : Bytes) → All IsByte b → Yields b (parse_loop fuel b)
unfolding parse_loop
parse_loop-Yields zero b h = tt
parse_loop-Yields (suc fuel) [] h = IsClean-nil []
parse_loop-Yields (suc fuel) (code ∷ []) h = elim (Bool-cases (code == opt_pad)) [
  | inl p ↦ rw p (Yields-longer code [] (parse_loop fuel []) (parse_loop-Yields fuel [] tt))
  | inr p ↦ elim (Bool-cases (code == opt_end)) [
    | inl e ↦ rw (p, e) (IsClean-nil (code ∷ []))
    | inr e ↦ rw (p, e) (IsClean-nil (code ∷ []))
  ]
]
parse_loop-Yields (suc fuel) (code ∷ n ∷ rest) h = elim (Bool-cases (code == opt_pad)) [
  | inl p ↦ rw p (Yields-longer code (n ∷ rest) _ (parse_loop-Yields fuel (n ∷ rest) h.1))
  | inr p ↦ elim (Bool-cases (code == opt_end)) [
    | inl e ↦ rw (p, e) (IsClean-nil (code ∷ n ∷ rest))
    | inr e ↦ elim (Bool-cases (ltb (length rest) n)) [
      | inl t ↦ rw (p, e, t) (IsClean-nil (code ∷ n ∷ rest))
      | inr t ↦
          rw (p, e, t)
            (prepend-Yields (code ∷ n ∷ rest) (drop n rest)
              (record { code = code; payload = take n rest }) (parse_loop fuel (drop n rest))
              (ground (arith, length-take n rest)) (ground arith)
              (ground (arith, length-take n rest, length-drop n rest))
              (parse_loop-Yields fuel (drop n rest) (All-drop IsByte n rest h.1.1)))
    ]
  ]
]

-- What ParseOptions accepts, Marshal writes in no more bytes than it was read from, and reading
-- that (with the End marker) gives the same options.
pub parse-marshal-parse :
    (b : Bytes) (opts : Options)
    → All IsByte b
    → parse_options b ≡ ok opts
    → (parse_options (marshal_options opts ++ opt_end ∷ []) ≡ ok opts)
      × (length (marshal_options opts) ≤ length b)
unfolding parse_options
parse-marshal-parse b opts h e =
    let (fits, same, short) : IsClean b opts = rw e at (parse_loop-Yields (suc (length b)) b h) in
    (parse_options-marshal_options opts [] fits ∙ ap ok same, short)
