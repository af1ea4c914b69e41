-- ===== src/Net/Selection.antt =====
-- What Select (pkg/container/net/renumber/prefix.go) promises.
use mathlib.Core.Path.{subst}
use sandal.Prelude.{
  ◌≡◌, refl, sym, ◌∙◌, ◌⊎◌, inl, inr, ℕ, ◌≤◌, true, false, Option, none, some, List, [], ◌∷◌,
  Bool-cases, arith, ltb, ◌==◌, All, ◌&&◌,
}
use sandal.Net.Ip.{IpNet}
use sandal.Net.Prefix.{
  Candidate, Global, globals, cidr_equal, cidr_less, find_current, pick, best_of, sticky, select,
  or_longest, is_link_local, is_ula, keep, longest,
}

-- The global is one of the list.
abbrev In : Global → List Global → Type 0
In x [] = ⊥
In x (g ∷ gs) = (x ≡ g) ⊎ In x gs

-- The current prefix is chosen again, or, where no candidate has it, one of the longest lifetime.
abbrev IsBest : List Global → Option IpNet → Global → Type 0
IsBest gs none g = All (λ h. h.until ≤ g.until) gs
IsBest gs (some current) g =
    (cidr_equal g.net current ≡ true)
    ⊎ (All (λ h. cidr_equal h.net current ≡ false) gs × All (λ h. h.until ≤ g.until) gs)

abbrev IsChoiceOf : List Global → Option IpNet → Option IpNet → Type 0
IsChoiceOf gs current none = gs ≡ []
IsChoiceOf gs current (some net) = (g : Global) × In g gs × (g.net ≡ net) × IsBest gs current g

All-le :
    (a b : ℕ) (gs : List Global) → a ≤ b → All (λ h. h.until ≤ a) gs → All (λ h. h.until ≤ b) gs
All-le a b [] l h = tt
All-le a b (g ∷ gs) l (x, h) = (omega arith, All-le a b gs l h)

pick_lem :
    (best c : Global)
    → ((pick best c ≡ best) ⊎ (pick best c ≡ c))
      × (best.until ≤ (pick best c).until)
      × (c.until ≤ (pick best c).until)
unfolding pick
pick_lem best c = elim (Bool-cases (ltb best.until c.until)) [
  | inl e ↦ rw e (inr refl, ground arith, omega arith)
  | inr e ↦ elim (Bool-cases (c.until == best.until && cidr_less c.net best.net)) [
    | inl f ↦ rw (e, f) (inr refl, ground arith, omega arith)
    | inr f ↦ rw (e, f) (inl refl, omega arith, ground arith)
  ]
]

best_of_lem :
    (best : Global) (gs : List Global)
    → In (best_of best gs) (best ∷ gs)
      × (best.until ≤ (best_of best gs).until)
      × All (λ h. h.until ≤ (best_of best gs).until) gs
unfolding best_of
best_of_lem best [] = (inl refl, omega arith, tt)
best_of_lem best (c ∷ cs) =
    let (which, old, new) = pick_lem best c in
    let (member, first, others) = best_of_lem (pick best c) cs in
    (
      elim member [
        | inl e ↦ elim which [ inl w ↦ inl (e ∙ w) | inr w ↦ inr (inl (e ∙ w)) ]
        | inr m ↦ inr (inr m)
      ],
      omega (arith, old, first),
      (omega (arith, new, first), others),
    )

find_current_lem :
    (gs : List Global) (current : IpNet)
    → ((find_current gs current ≡ none) × All (λ h. cidr_equal h.net current ≡ false) gs)
      ⊎ ((g : Global) × In g gs
          × (find_current gs current ≡ some g.net)
          × (cidr_equal g.net current ≡ true))
unfolding find_current
find_current_lem [] current = inl (refl, tt)
find_current_lem (g ∷ gs) current = elim (Bool-cases (cidr_equal g.net current)) [
  | inl e ↦ rw e (inr (g, inl refl, refl, e))
  | inr e ↦ elim (find_current_lem gs current) [
    | inl (n, h) ↦ rw e (inl (n, (refl, h)))
    | inr (f, m, s, k) ↦ rw e (inr (f, inr m, s, k))
  ]
]

longest-IsChoiceOf :
    (gs : List Global) (current : Option IpNet)
    → ((g : Global) → All (λ h. h.until ≤ g.until) gs → IsBest gs current g)
    → IsChoiceOf gs current (longest gs)
longest-IsChoiceOf [] current k = refl
longest-IsChoiceOf (g ∷ gs) current k =
    let (member, first, others) = best_of_lem g gs in
    (best_of g gs, member, refl, k (best_of g gs) (first, others))

chooses :
    (cands : List Candidate) (current : Option IpNet)
    → IsChoiceOf (globals cands) current (select cands current)
unfolding select sticky or_longest
chooses cands none = longest-IsChoiceOf (globals cands) none (λ g h. h)
chooses cands (some current) = elim (find_current_lem (globals cands) current) [
  | inl (n, h) ↦ rw n (longest-IsChoiceOf (globals cands) (some current) (λ g l. inr (h, l)))
  | inr (g, m, s, k) ↦ rw s (g, m, refl, inl k)
]

-- A prefix that is neither link-local nor ULA.
abbrev IsPublic : IpNet → Type 0
IsPublic net = (is_link_local net.ip ≡ false) × (is_ula net.ip ≡ false)

-- What holds of every public prefix of the candidates, with its lifetime's end.
abbrev Publicly : (IpNet → ℕ → Type 0) → List Candidate → Type 0
Publicly P cands =
    All (λ c. (net : IpNet) → c.prefix ≡ some net → IsPublic net → P net c.valid_until) cands

-- One of the candidates has the prefix, which is public, with this end.
abbrev Offers : List Candidate → IpNet → ℕ → Type 0
Offers [] net until = ⊥
Offers (c ∷ cs) net until =
    ((c.prefix ≡ some net) × (c.valid_until ≡ until) × IsPublic net) ⊎ Offers cs net until

-- The current prefix where a public candidate has it, else one that ends last.
abbrev IsPreferred : List Candidate → Option IpNet → IpNet → ℕ → Type 0
IsPreferred cands none net until = Publicly (λ n u. u ≤ until) cands
IsPreferred cands (some current) net until =
    (cidr_equal net current ≡ true)
    ⊎ (Publicly (λ n u. cidr_equal n current ≡ false) cands × Publicly (λ n u. u ≤ until) cands)

abbrev pub IsChoice : List Candidate → Option IpNet → Option IpNet → Type 0
IsChoice cands current none = Publicly (λ n u. ⊥) cands
IsChoice cands current (some net) =
    (until : ℕ) × Offers cands net until × IsPreferred cands current net until

-- The loop keeps a candidate exactly if it has a public prefix.
abbrev Kept : Option IpNet → ℕ → List Global → List Global → Type 0
Kept p u gs hs =
    ((net : IpNet) × (p ≡ some net) × IsPublic net × (hs ≡ record { net = net; until = u } ∷ gs))
    ⊎ (((net : IpNet) → p ≡ some net → IsPublic net → ⊥) × (hs ≡ gs))

keep-Kept : (p : Option IpNet) (u : ℕ) (gs : List Global) → Kept p u gs (keep p u gs)
keep-Kept none u gs = inr (λ net e h. cc, refl)
keep-Kept (some net) u gs = elim (Bool-cases (is_link_local net.ip)) [
  | inl e ↦
      rw e (inr (λ n q h. absurd (let f : is_link_local net.ip ≡ false = cc (q, h.0) in cc), refl))
  | inr e ↦ elim (Bool-cases (is_ula net.ip)) [
    | inl f ↦
        rw (e, f) (inr (λ n q h. absurd (let g : is_ula net.ip ≡ false = cc (q, h.1) in cc), refl))
    | inr f ↦ rw (e, f) (inl (net, refl, (e, f), refl))
  ]
]

globals-Publicly :
    (P : IpNet → ℕ → Type 0) (cands : List Candidate)
    → All (λ g. P g.net g.until) (globals cands)
    → Publicly P cands
unfolding globals
globals-Publicly P [] h = tt
globals-Publicly P (c ∷ cs) h = elim (keep-Kept c.prefix c.valid_until (globals cs)) [
  | inl (net, q, k, e) ↦
      (let (x, hs) : P net c.valid_until × All (λ g. P g.net g.until) (globals cs) =
          subst (All (λ g. P g.net g.until)) e h in
        (
          λ n r l. subst (λ y. P y c.valid_until) (some-inj net n (sym q ∙ r)) x,
          globals-Publicly P cs hs,
        ))
  | inr (never, e) ↦ (
    λ n r l. absurd (never n r l),
    globals-Publicly P cs (subst (All (λ g. P g.net g.until)) e h),
  )
]
  where
    some-inj : (a b : IpNet) → some a ≡ some b → a ≡ b
    some-inj a b e = cc

globals-Offers :
    (g : Global) (cands : List Candidate) → In g (globals cands) → Offers cands g.net g.until
unfolding globals
globals-Offers g [] m = m
globals-Offers g (c ∷ cs) m = elim (keep-Kept c.prefix c.valid_until (globals cs)) [
  | inl (net, q, k, e) ↦ elim (subst (In g) e m) [
    | inl f ↦ inl (
        subst (λ y. (c.prefix ≡ some y.net) × (c.valid_until ≡ y.until) × IsPublic y.net) (sym f)
          (q, refl, k))
    | inr n ↦ inr (globals-Offers g cs n)
  ]
  | inr (never, e) ↦ inr (globals-Offers g cs (subst (In g) e m))
]

IsBest-IsPreferred :
    (cands : List Candidate) (current : Option IpNet) (g : Global)
    → IsBest (globals cands) current g
    → IsPreferred cands current g.net g.until
IsBest-IsPreferred cands none g h = globals-Publicly (λ n u. u ≤ g.until) cands h
IsBest-IsPreferred cands (some current) g (inl e) = inl e
IsBest-IsPreferred cands (some current) g (inr (n, h)) = inr (
  globals-Publicly (λ x u. cidr_equal x current ≡ false) cands n,
  globals-Publicly (λ x u. u ≤ g.until) cands h,
)

IsChoiceOf-IsChoice :
    (cands : List Candidate) (current chosen : Option IpNet)
    → IsChoiceOf (globals cands) current chosen
    → IsChoice cands current chosen
IsChoiceOf-IsChoice cands current none e =
    globals-Publicly (λ n u. ⊥) cands (subst (All (λ g. ⊥)) (sym e) tt)
IsChoiceOf-IsChoice cands current (some net) (g, m, e, b) =
    subst (λ n. (u : ℕ) × Offers cands n u × IsPreferred cands current n u) e
      (g.until, globals-Offers g cands m, IsBest-IsPreferred cands current g b)

-- Select chooses a prefix of a candidate that is neither link-local nor ULA: the current prefix if
-- such a candidate has it, and else one whose lifetime ends last of theirs; it chooses nothing only
-- where no candidate has such a prefix.
pub select-IsChoice :
    (cands : List Candidate) (current : Option IpNet)
    → IsChoice cands current (select cands current)
select-IsChoice cands current = IsChoiceOf-IsChoice cands current _ (chooses cands current)
