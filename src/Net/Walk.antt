-- ===== src/Net/Walk.antt =====
-- Where the search of IPRequest (pkg/container/net/ip-allocation.go) ends.
use sandal.Prelude.{
  ◌≡◌, ◌≢◌, refl, ◌∙◌, ℕ, zero, suc, ◌+◌, Bool, true, false, some, [], ◌∷◌, ◌++◌, length, arith,
}
use sandal.Prelude.Words.{Bytes}
use sandal.Prelude.Text.{equal}
use sandal.Net.Ip.{to4, to16, ip_equal, IpNet, FitsMask, contains_self, mapped_prefix}
use sandal.Net.Allocation.{
  add_one, increment_at, ip_increment, stepped, last_ip, allocated, offer, walk,
}

-- The address `k` behind another one.
abbrev pub behind : ℕ → Bytes → Bytes
behind zero ip = ip
behind (suc k) ip = behind k (add_one ip).0

-- The next `k` addresses are in use, and the one behind them is not.
abbrev pub FreeAt : (Bytes → Bool) → Bytes → ℕ → Bytes → Type 0
FreeAt in_use mask zero ip = in_use ip ≡ false
FreeAt in_use mask (suc k) ip =
    (in_use ip ≡ true)
    × ((add_one ip).1 ≡ false)
    × FitsMask (add_one ip).0 mask
    × FreeAt in_use mask k (add_one ip).0

length-add_one : (ip : Bytes) → length (add_one ip).0 ≡ length ip
unfolding add_one
length-add_one [] = refl
length-add_one (b ∷ bs) = ground (arith, length-add_one bs)

-- The network whose slice holds the address.
abbrev pub at : IpNet → Bytes → IpNet
at n ip = record n { ip = ip }

to16_lem : (ip : Bytes) → length ip ≡ 16 → to16 ip ≡ some ip
unfolding to16
to16_lem ip l = rw l

ip_increment_lem :
    (n : IpNet)
    → length n.ip ≡ 16
    → (add_one n.ip).1 ≡ false
    → FitsMask (add_one n.ip).0 n.mask
    → ip_increment n ≡ stepped (add_one n.ip).0
unfolding ip_increment increment_at
ip_increment_lem n l c f =
    rw (to16_lem n.ip l, c, contains_self (at n (add_one n.ip).0) (length-add_one n.ip ∙ l) f)

-- If the addresses from the network's on are in use up to one that is free, the search ends, at
-- that one, in or out of the network: it never finds that the network has no address left.
pub walk-offer :
    (in_use : Bytes → Bool) (broadcast : Bool) (k rounds : ℕ) (n : IpNet)
    → length n.ip ≡ 16
    → FreeAt in_use n.mask k n.ip
    → walk in_use (suc k + rounds) broadcast n ≡ offer broadcast (at n (behind k n.ip))
unfolding walk
walk-offer in_use broadcast zero rounds n l f =
    let e : suc 0 + rounds ≡ suc rounds = omega arith in rw (e, f)
walk-offer in_use broadcast (suc k) rounds n l (u, c, m, f) =
    let e : suc (suc k) + rounds ≡ suc (suc k + rounds) = omega arith in
    rw (e, u, ip_increment_lem n l c m)
      (walk-offer in_use broadcast k rounds (at n (add_one n.ip).0) (length-add_one n.ip ∙ l) f)

-- The broadcast address of an IPv4 network is offered like any other, if its mask has 8 ones or
-- more and the network's first byte is not 0: lastIP reads the first bytes of the slice of 16,
-- which are the zeros of the prefix.
pub offer-allocated :
    (a b c d m1 m2 m3 : ℕ)
    → a ≢ 0
    → offer true
        (record { ip = mapped_prefix ++ a ∷ b ∷ c ∷ d ∷ []; mask = 255 ∷ m1 ∷ m2 ∷ m3 ∷ [] })
      ≡ allocated (mapped_prefix ++ a ∷ b ∷ c ∷ d ∷ [])
unfolding offer to4 last_ip ip_equal equal
offer-allocated a b c d m1 m2 m3 h = ground arith
