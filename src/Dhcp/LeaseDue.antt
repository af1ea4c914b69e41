-- ===== src/Dhcp/LeaseDue.antt =====
-- The deadlines of a lease in the DHCPv6 lease loop (pkg/lib/dhcp/lease_loop.go), and when its calls
-- are due.
use sandal.Prelude.{
  ◌≡◌, inl, inr, ◌⊎◌, ℕ, ◌+◌, ◌*◌, ◌/◌, ◌≤◌, ◌<◌, ◌==◌, if◌then◌else◌, List, [], ◌∷◌, ◌*◌, arith,
  All,
}
use sandal.Dhcp.Lease.{LeaseTimes, defaults_for, Call, renew, rebind, release, Loop, schedule}

-- A lease with when it came.
abbrev pub Held : Type 0
Held = ℕ × LeaseTimes

-- A lifetime of 0 is a day.
abbrev pub lifetime : LeaseTimes → ℕ
lifetime lease = if lease.valid == 0 then 86_400_000_000_000 else lease.valid

-- The deadlines of a lease are its times from when it came; where T1 or T2 is 0 it is a half or four
-- fifths of the lifetime.
pub record IsDue (held : Held) (t1_at t2_at valid_at : ℕ) : Type 0 where
  pub first : 0 < held.1.t1 → held.1.t1 < 9223372036854775808 → t1_at ≡ held.0 + held.1.t1
  pub half :
      held.1.t1 ≡ 0 → lifetime held.1 < 2305843009213693952 → t1_at ≡ held.0 + lifetime held.1 / 2
  pub second : 0 < held.1.t2 → held.1.t2 < 9223372036854775808 → t2_at ≡ held.0 + held.1.t2
  pub fifths :
      held.1.t2 ≡ 0
      → lifetime held.1 < 2305843009213693952
      → t2_at ≡ held.0 + lifetime held.1 * 4 / 5
  pub last : lifetime held.1 < 9223372036854775808 → valid_at ≡ held.0 + lifetime held.1

pub schedule-IsDue :
    (lease : LeaseTimes) (l : Loop)
    → IsDue
        (l.now, lease)
        (schedule lease l).t1_at
        (schedule lease l).t2_at
        (schedule lease l).valid_at
unfolding schedule defaults_for
schedule-IsDue lease l = record {
  first = λ h k. ground (arith, h, k);
  half = λ h k. ground (arith, h, k);
  second = λ h k. ground (arith, h, k);
  fifths = λ h k. ground (arith, h, k);
  last = λ k. ground (arith, k);
}

-- One of the leases had these deadlines, when it was held.
abbrev HadT1T2 : List Held → ℕ → ℕ → ℕ → Type 0
HadT1T2 [] now t1_at t2_at = ⊥
HadT1T2 (h ∷ hs) now t1_at t2_at =
    ((h.0 ≤ now) × ((valid_at : ℕ) × IsDue h t1_at t2_at valid_at)) ⊎ HadT1T2 hs now t1_at t2_at

abbrev HadT2End : List Held → ℕ → ℕ → ℕ → Type 0
HadT2End [] now t2_at valid_at = ⊥
HadT2End (h ∷ hs) now t2_at valid_at =
    ((h.0 ≤ now) × ((t1_at : ℕ) × IsDue h t1_at t2_at valid_at)) ⊎ HadT2End hs now t2_at valid_at

-- The loop's deadlines are the latest lease's.
abbrev pub IsCurrent : List Held → ℕ → ℕ → ℕ → ℕ → Type 0
IsCurrent [] now t1_at t2_at valid_at = ⊥
IsCurrent (h ∷ hs) now t1_at t2_at valid_at = (h.0 ≤ now) × IsDue h t1_at t2_at valid_at

pub IsCurrent-later :
    (hs : List Held) (now new a b v : ℕ)
    → now ≤ new
    → IsCurrent hs now a b v
    → IsCurrent hs new a b v
IsCurrent-later [] now new a b v l h = h
IsCurrent-later (x ∷ hs) now new a b v l (k, d) = (omega (arith, l, k), d)

pub current-HadT1T2 : (hs : List Held) (now a b v : ℕ) → IsCurrent hs now a b v → HadT1T2 hs now a b
current-HadT1T2 [] now a b v h = h
current-HadT1T2 (x ∷ hs) now a b v (k, d) = inl (k, (v, d))

pub current-HadT2End :
    (hs : List Held) (now a b v : ℕ) → IsCurrent hs now a b v → HadT2End hs now b v
current-HadT2End [] now a b v h = h
current-HadT2End (x ∷ hs) now a b v (k, d) = inl (k, (a, d))

-- A Renew begins from T1 on and before T2, a Rebind from T2 on and before the lifetime's end, of a
-- lease that had come.
abbrev pub IsTimely : List Held → Call → Type 0
IsTimely hs (renew now t1_at t2_at) = (t1_at ≤ now) × (now < t2_at) × HadT1T2 hs now t1_at t2_at
IsTimely hs (rebind now t2_at valid_at) =
    (t2_at ≤ now) × (now < valid_at) × HadT2End hs now t2_at valid_at
IsTimely hs (release now) = Unit

pub IsTimely-more :
    (h : Held) (hs : List Held) (calls : List Call)
    → All (IsTimely hs) calls
    → All (IsTimely (h ∷ hs)) calls
IsTimely-more h hs [] t = tt
IsTimely-more h hs (renew now a b ∷ cs) ((x, y, z), t) = ((x, y, inr z), IsTimely-more h hs cs t)
IsTimely-more h hs (rebind now a b ∷ cs) ((x, y, z), t) = ((x, y, inr z), IsTimely-more h hs cs t)
IsTimely-more h hs (release now ∷ cs) (x, t) = (tt, IsTimely-more h hs cs t)
