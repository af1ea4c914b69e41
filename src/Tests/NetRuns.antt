-- ===== src/Tests/NetRuns.antt =====
-- Runs of pkg/container/net: addresses of a /24 of IPv4, and prefixes of IPv6.
use sandal.Prelude.{
  ◌≡◌, refl, inr, ℕ, Bool, true, false, ◌||◌, none, some, List, [], ◌∷◌, ◌++◌, arith,
}
use sandal.Prelude.Words.{Bytes}
use sandal.Prelude.Text.{equal}
use sandal.Net.Ip.{
  to4, to16, IpNet, ip_equal, contains, contained, masked_equal, mapped_prefix, mask_size,
  ones_from,
}
use sandal.Net.Allocation.{
  add_one, increment_at, ip_increment, last_bytes, last_ip, offer, walk, ip_request, allocated,
  bad_ip, bad_mask,
}
use sandal.Net.Walk.{behind, FreeAt, at, walk-offer, offer-allocated}
use sandal.Net.Prefix.{
  is_link_local, is_ula, is_global, iid_equal, cidr_equal, bytes_less, cidr_less, Candidate,
  globals, find_current, pick, best_of, sticky, or_longest, select, pick_global, pick_iid, kept,
  replace_globals, Addr,
}
use sandal.Net.Selection.{IsChoice, select-IsChoice}

abbrev v4 : ℕ → ℕ → ℕ → ℕ → Bytes
v4 a b c d = mapped_prefix ++ a ∷ b ∷ c ∷ d ∷ []

-- The /24 that begins at 10.0.0.254, as the walk holds it there.
abbrev near_end : IpNet
near_end = record { ip = v4 10 0 0 254; mask = 255 ∷ 255 ∷ 255 ∷ 0 ∷ [] }

abbrev taken : Bytes → Bool
taken ip = equal ip (v4 10 0 0 254) || equal ip (v4 10 0 0 255)

near_end-FreeAt : FreeAt taken (255 ∷ 255 ∷ 255 ∷ 0 ∷ []) 2 (v4 10 0 0 254)
unfolding add_one equal to4
near_end-FreeAt = (refl, refl, inr (refl, refl), (refl, refl, inr (refl, refl), refl))

walk-offer_example :
    walk taken 3 false near_end ≡ offer false (at near_end (behind 2 (v4 10 0 0 254)))
walk-offer_example = walk-offer taken false 2 0 near_end refl near_end-FreeAt

offer-allocated_example :
    offer true (record { ip = v4 10 0 0 255; mask = 255 ∷ 255 ∷ 255 ∷ 0 ∷ [] })
    ≡ allocated (v4 10 0 0 255)
offer-allocated_example = offer-allocated 10 0 0 255 255 255 0 (λ e. omega arith)

-- The walk above leaves the network.
leaves : walk taken 3 false near_end ≡ allocated (v4 10 0 1 0)
unfolding walk ip_increment increment_at add_one to16 to4 offer equal contains contained
    masked_equal
leaves = refl

abbrev lan : Bytes → IpNet
lan ip = record { ip = ip; mask = 255 ∷ 255 ∷ 255 ∷ 0 ∷ [] }

-- The first address of a /24 that is free; a mask of no usual form, and an address of three bytes.
requests :
    (ip_request taken 4 (lan (10 ∷ 0 ∷ 0 ∷ 0 ∷ [])) ≡ allocated (v4 10 0 0 1))
    × (ip_request taken 4 (record { ip = v4 10 0 0 0; mask = 255 ∷ 0 ∷ 255 ∷ 0 ∷ [] }) ≡ bad_mask)
    × (ip_request taken 4 (lan (10 ∷ 0 ∷ 0 ∷ [])) ≡ bad_ip)
    × (last_ip (lan (10 ∷ 0 ∷ 0 ∷ 7 ∷ [])) ≡ some (10 ∷ 0 ∷ 0 ∷ 255 ∷ []))
    × (last_ip (lan (v4 10 0 0 7)) ≡ some (0 ∷ 0 ∷ 0 ∷ 255 ∷ []))
unfolding ip_request walk ip_increment increment_at add_one to16 to4 offer equal contains contained
    masked_equal last_ip last_bytes ip_equal mask_size ones_from
requests = (refl, refl, refl, refl, refl)

-- A prefix 2001:db8:x::/64, and its address with a last byte.
abbrev global_ip : ℕ → ℕ → Bytes
global_ip x d = 0x20 ∷ 1 ∷ 0xd ∷ 0xb8 ∷ 0 ∷ x ∷ 0 ∷ 0 ∷ 0 ∷ 0 ∷ 0 ∷ 0 ∷ 0 ∷ 0 ∷ 0 ∷ d ∷ []

abbrev ula_ip : Bytes
ula_ip = 0xfd ∷ 0 ∷ 0 ∷ 0 ∷ 0 ∷ 0 ∷ 0 ∷ 0 ∷ 0 ∷ 0 ∷ 0 ∷ 0 ∷ 0 ∷ 0 ∷ 0 ∷ 9 ∷ []

abbrev prefix64 : Bytes → IpNet
prefix64 ip = record {
  ip = ip;
  mask = 255 ∷ 255 ∷ 255 ∷ 255 ∷ 255 ∷ 255 ∷ 255 ∷ 255 ∷ 0 ∷ 0 ∷ 0 ∷ 0 ∷ 0 ∷ 0 ∷ 0 ∷ 0 ∷ [];
}

abbrev heard : List Candidate
heard =
    record { prefix = some (prefix64 ula_ip); valid_until = 900 }
    ∷ record { prefix = some (prefix64 (global_ip 2 0)); valid_until = 500 }
    ∷ record { prefix = none; valid_until = 800 }
    ∷ record { prefix = some (prefix64 (global_ip 1 0)); valid_until = 500 }
    ∷ []

select-IsChoice_example : IsChoice heard none (select heard none)
select-IsChoice_example = select-IsChoice heard none

-- The lower prefix of two with the same lifetime, unless the other one is in use.
selects :
    (select heard none ≡ some (prefix64 (global_ip 1 0)))
    × (select heard (some (prefix64 (global_ip 2 0))) ≡ some (prefix64 (global_ip 2 0)))
unfolding select or_longest sticky globals is_link_local is_ula contains contained masked_equal to4
    equal find_current best_of pick cidr_less cidr_equal bytes_less mask_size ones_from ip_equal
selects = (refl, refl)

abbrev addrs : List Addr
addrs =
    record { ip = v4 10 0 0 9; net = lan (v4 10 0 0 0) }
    ∷ record { ip = global_ip 1 7; net = prefix64 (global_ip 1 0) }
    ∷ record { ip = global_ip 3 8; net = prefix64 (global_ip 3 0) }
    ∷ []

abbrev owned : Bytes → Bool
owned ip = equal ip (global_ip 1 7)

replaces :
    (replace_globals owned (prefix64 (global_ip 2 7) ∷ []) addrs
      ≡ record { ip = v4 10 0 0 9; net = lan (v4 10 0 0 0) }
        ∷ record { ip = global_ip 3 8; net = prefix64 (global_ip 3 0) }
        ∷ record { ip = global_ip 2 7; net = prefix64 (global_ip 2 7) }
        ∷ [])
    × (pick_iid addrs ≡ some (0 ∷ 0 ∷ 0 ∷ 0 ∷ 0 ∷ 0 ∷ 0 ∷ 7 ∷ []))
    × (iid_equal (global_ip 1 7) (global_ip 2 7) ≡ true)
    × (iid_equal (global_ip 1 7) (v4 10 0 0 7) ≡ false)
unfolding replace_globals kept is_global pick_iid pick_global is_link_local is_ula contains
    contained masked_equal to4 to16 equal iid_equal
replaces = (refl, refl, refl, refl)
