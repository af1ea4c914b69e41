-- ===== src/Net/Prefix.antt =====
-- The choice of an IPv6 prefix: pkg/container/net/renumber/prefix.go, and pickGlobal, pickIID and
-- ReplaceGlobals of pkg/container/net/addr.go. An instant is in nanoseconds.
use sandal.Prelude.{
  ℕ, Bool, false, not, ◌&&◌, ◌||◌, Option, none, some, List, [], ◌∷◌, ◌++◌, ◌==◌, if◌then◌else◌,
  drop, ltb, map,
}
use sandal.Prelude.Words.{Bytes}
use sandal.Prelude.Text.{equal}
use sandal.Net.Ip.{to4, to16, is_some, or_else, ip_equal, IpNet, contains, mask_size}

abbrev zeros14 : Bytes
zeros14 = 0 ∷ 0 ∷ 0 ∷ 0 ∷ 0 ∷ 0 ∷ 0 ∷ 0 ∷ 0 ∷ 0 ∷ 0 ∷ 0 ∷ 0 ∷ 0 ∷ []

-- fe80::/10 and fc00::/7
abbrev link_local : IpNet
link_local = record { ip = 0xfe ∷ 0x80 ∷ zeros14; mask = 0xff ∷ 0xc0 ∷ zeros14 }

abbrev ula : IpNet
ula = record { ip = 0xfc ∷ 0 ∷ zeros14; mask = 0xfe ∷ 0 ∷ zeros14 }

unfoldable pub is_link_local : Bytes → Bool
is_link_local ip = contains link_local ip

unfoldable pub is_ula : Bytes → Bool
is_ula ip = contains ula ip

-- isGlobal
unfoldable pub is_global : Bytes → Bool
is_global ip = not (is_some (to4 ip)) && (not (is_link_local ip) && not (is_ula ip))

-- iidEqual
unfoldable pub iid_equal : Bytes → Bytes → Bool
iid_equal a b = elim (to16 a) [
  | none ↦ false
  | some x ↦ elim (to16 b) [ none ↦ false | some y ↦ equal (drop 8 x) (drop 8 y) ]
]

-- cidrEqual on networks that are not nil
unfoldable pub cidr_equal : IpNet → IpNet → Bool
cidr_equal a b = ip_equal a.ip b.ip && (mask_size a.mask).0 == (mask_size b.mask).0

-- The loop of cidrLess; what follows it where the common bytes are the same.
unfoldable pub bytes_less : Bytes → Bytes → Bool → Bool
bytes_less (x ∷ xs) (y ∷ ys) after =
    let rest = bytes_less xs ys after in if x == y then rest else ltb x y
bytes_less _ _ after = after

-- cidrLess
unfoldable pub cidr_less : IpNet → IpNet → Bool
cidr_less a b = bytes_less a.ip b.ip (ltb (mask_size a.mask).0 (mask_size b.mask).0)

pub record Candidate : Type 0 where
  pub prefix : Option IpNet
  pub valid_until : ℕ

-- A candidate that Select goes on with, which has a prefix.
pub record Global : Type 0 where
  pub net : IpNet
  pub until : ℕ

-- The first loop of Select.
abbrev pub keep : Option IpNet → ℕ → List Global → List Global
keep none until rest = rest
keep (some net) until rest =
    if is_link_local net.ip || is_ula net.ip
    then rest
    else record { net = net; until = until } ∷ rest

unfoldable pub globals : List Candidate → List Global
globals [] = []
globals (c ∷ cs) = keep c.prefix c.valid_until (globals cs)

-- The loop that looks for the current prefix.
unfoldable pub find_current : List Global → IpNet → Option IpNet
find_current [] current = none
find_current (g ∷ gs) current =
    if cidr_equal g.net current then some g.net else find_current gs current

-- The loop for the longest lifetime.
unfoldable pub pick : Global → Global → Global
pick best c =
    if ltb best.until c.until
    then c
    else if c.until == best.until && cidr_less c.net best.net
    then c
    else best

unfoldable pub best_of : Global → List Global → Global
best_of best [] = best
best_of best (c ∷ cs) = best_of (pick best c) cs

abbrev pub longest : List Global → Option IpNet
longest [] = none
longest (g ∷ gs) = some (best_of g gs).net

-- The search for `current`, which may be nil.
unfoldable pub sticky : List Global → Option IpNet → Option IpNet
sticky gs none = none
sticky gs (some current) = find_current gs current

unfoldable pub or_longest : Option IpNet → List Global → Option IpNet
or_longest (some net) gs = some net
or_longest none gs = longest gs

-- Select
unfoldable pub select : List Candidate → Option IpNet → Option IpNet
select cands current = or_longest (sticky (globals cands) current) (globals cands)

-- An address of a container, as a netlink address gives it.
pub record Addr : Type 0 where
  pub ip : Bytes
  pub net : IpNet

-- pickGlobal: the address, not its place.
unfoldable pub pick_global : List Addr → Option Addr
pick_global [] = none
pick_global (a ∷ addrs) = if is_global a.ip then some a else pick_global addrs

-- pickIID. An address that has no 16 bytes cannot be global here, so the slice is there.
unfoldable pub pick_iid : List Addr → Option Bytes
pick_iid addrs = elim (pick_global addrs) [
  | none ↦ none
  | some a ↦ some (drop 8 (or_else (to16 a.ip) []))
]

-- Addrs.ReplaceGlobals
abbrev of_net : IpNet → Addr
of_net w = record { ip = w.ip; net = w }

unfoldable pub kept : (Bytes → Bool) → List Addr → List Addr
kept owned [] = []
kept owned (a ∷ addrs) =
    let rest = kept owned addrs in if is_global a.ip && owned a.ip then rest else a ∷ rest

unfoldable pub replace_globals : (Bytes → Bool) → List IpNet → List Addr → List Addr
replace_globals owned want addrs = kept owned addrs ++ map of_net want
