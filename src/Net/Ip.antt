-- ===== src/Net/Ip.antt =====
-- What the code uses of the type net.IP, a slice of bytes: an IPv4 address has 4 bytes, or 16 with
-- the prefix of the mapped ones.
use Prim.Native.Nat.{bit_and}
use sandal.Prelude.{
  ◌≡◌, refl, ℕ, ◌+◌, ◌*◌, ◌⊎◌, inl, inr, Option-cases, length-drop, Bool, true, false, ◌&&◌, Option,
  none, some, [], ◌∷◌, ◌++◌, ◌==◌, if◌then◌else◌, length, take, drop, arith,
}
use sandal.Prelude.Words.{Bytes}
use sandal.Prelude.Text.{equal}

abbrev pub mapped_prefix : Bytes
mapped_prefix = 0 ∷ 0 ∷ 0 ∷ 0 ∷ 0 ∷ 0 ∷ 0 ∷ 0 ∷ 0 ∷ 0 ∷ 255 ∷ 255 ∷ []

-- IP.To4 and IP.To16, with nil as `none`.
unfoldable pub to4 : Bytes → Option Bytes
to4 ip =
    if length ip == 4
    then some ip
    else if length ip == 16 && equal (take 12 ip) mapped_prefix
    then some (drop 12 ip)
    else none

unfoldable pub to16 : Bytes → Option Bytes
to16 ip =
    if length ip == 4 then some (mapped_prefix ++ ip) else if length ip == 16 then some ip else none

abbrev pub is_some {ℓ} : {A : Type ℓ} → Option A → Bool
is_some none = false
is_some (some a) = true

abbrev pub or_else {ℓ} : {A : Type ℓ} → Option A → A → A
or_else none d = d
or_else (some a) d = a

-- IP.Equal
unfoldable pub ip_equal : Bytes → Bytes → Bool
ip_equal a b =
    if length a == length b
    then equal a b
    else if length a == 4 && length b == 16
    then equal (take 12 b) mapped_prefix && equal a (drop 12 b)
    else length a == 16 && length b == 4 && (equal (take 12 a) mapped_prefix && equal (drop 12 a) b)

pub record IpNet : Type 0 where
  pub ip : Bytes
  pub mask : Bytes

-- networkNumberAndMask
abbrev number : IpNet → Bytes
number n = or_else (to4 n.ip) (if length n.ip == 16 then n.ip else [])

abbrev mask_for : ℕ → Bytes → Option Bytes
mask_for l mask =
    if length mask == l
    then some mask
    else if length mask == 16 && l == 4
    then some (drop 12 mask)
    else none

unfoldable pub masked_equal : Bytes → Bytes → Bytes → Bool
masked_equal (a ∷ xs) (m ∷ ms) (b ∷ bs) = bit_and a m == bit_and b m && masked_equal xs ms bs
masked_equal _ _ _ = true

-- The comparison of Contains; a network without a number has the length 0.
unfoldable pub contained : Bytes → Bytes → Option Bytes → Bool
unfolding masked_equal
contained nn x none = length x == 0
contained nn x (some m) = length x == length nn && masked_equal nn m x

-- IPNet.Contains
unfoldable pub contains : IpNet → Bytes → Bool
unfolding contained
contains n ip = contained (number n) (or_else (to4 ip) ip) (mask_for (length (number n)) n.mask)

masked_equal_refl : (a m : Bytes) → masked_equal a m a ≡ true
unfolding masked_equal
masked_equal_refl [] m = refl
masked_equal_refl (x ∷ a) [] = refl
masked_equal_refl (x ∷ a) (y ∷ m) = ground (arith, masked_equal_refl a m)

contained_refl : (x m : Bytes) → contained x x (some m) ≡ true
unfolding contained
contained_refl x m = ground (arith, masked_equal_refl x m)

length-to4 : (ip x : Bytes) → to4 ip ≡ some x → length x ≡ 4
unfolding to4
length-to4 ip x e = ground (arith, length-drop 12 ip)

-- The mask is one for the address: of 16 bytes, or of 4 for an IPv4 address.
abbrev pub FitsMask : Bytes → Bytes → Type 0
FitsMask ip mask = (length mask ≡ 16) ⊎ ((length mask ≡ 4) × (is_some (to4 ip) ≡ true))

-- A network contains the address that is its own.
pub contains_self : (n : IpNet) → length n.ip ≡ 16 → FitsMask n.ip n.mask → contains n n.ip ≡ true
unfolding contains
contains_self n l f = elim (Option-cases (to4 n.ip)) [
  | inl e ↦ elim f [
    | inl m ↦ rw (e, l, m) (rw l (contained_refl n.ip n.mask))
    | inr (m, s) ↦ (let g : false ≡ true = rw e at s in ground arith)
  ]
  | inr (x, e) ↦ elim f [
    | inl m ↦ rw (e, length-to4 n.ip x e, m) (contained_refl x (drop 12 n.mask))
    | inr (m, s) ↦ rw (e, length-to4 n.ip x e, m) (contained_refl x n.mask)
  ]
]

-- The ones of a mask's byte; `none` where they are not all in front.
abbrev leading : ℕ → Option ℕ
leading b =
    if b == 0
    then some 0
    else if b == 128
    then some 1
    else if b == 192
    then some 2
    else if b == 224
    then some 3
    else if b == 240
    then some 4
    else if b == 248
    then some 5
    else if b == 252
    then some 6
    else if b == 254
    then some 7
    else none

abbrev all_zero : Bytes → Bool
all_zero [] = true
all_zero (b ∷ bs) = b == 0 && all_zero bs

unfoldable pub ones_from : Bytes → ℕ → Option ℕ
ones_from [] n = some n
ones_from (b ∷ bs) n =
    let rest = ones_from bs (n + 8) in
    if b == 255
    then rest
    else elim (leading b) [ none ↦ none | some k ↦ if all_zero bs then some (n + k) else none ]

-- IPMask.Size: the ones and the bits, both 0 of a mask that is not in the usual form.
unfoldable pub mask_size : Bytes → ℕ × ℕ
unfolding ones_from
mask_size mask = elim (ones_from mask 0) [ none ↦ (0, 0) | some n ↦ (n, 8 * length mask) ]
