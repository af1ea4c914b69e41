-- ===== src/Net/Allocation.antt =====
-- The choice of an address: pkg/container/net/ip-allocation.go, and ipIncrement and lastIP of
-- addr.go. The slice of the address that is tried is also that of the network: deepCopy gives the
-- network an address of 16 bytes, To16 returns a slice of that length as it is, and ipIncrement
-- writes into it. So `walk` has one value for both. Whether an address is in use is a parameter.
use Prim.Native.Nat.{bit_and, bit_or, bit_xor}
use sandal.Prelude.{
  ℕ, zero, suc, ◌+◌, Bool, true, false, not, ◌&&◌, ◌||◌, Option, none, some, [], ◌∷◌, ◌==◌,
  if◌then◌else◌, length, leb,
}
use sandal.Prelude.Words.{Bytes}
use sandal.Net.Ip.{to4, to16, is_some, or_else, ip_equal, IpNet, contains, mask_size}

-- The bytes after the loop of ipIncrement, and whether every byte was 255: the loop goes on to the
-- index -1 then, and panics.
unfoldable pub add_one : Bytes → Bytes × Bool
add_one [] = ([], true)
add_one (b ∷ bs) =
    let (rest, carry) = add_one bs in
    if not carry
    then (b ∷ rest, false)
    else if b == 255
    then (0 ∷ rest, true)
    else ((b + 1) ∷ rest, false)

pub data Increment : Type 0 where
  stepped : Bytes → Increment
  no_ip panics : Increment
  -- The error "ip exeeds the network range", with the address.
  outside : Bytes → Increment

-- ipIncrement on the network's own slice, with what To16 gives of it.
unfoldable pub increment_at : IpNet → Option Bytes → Increment
increment_at n none = no_ip
increment_at n (some x) =
    let (y, carry) = add_one x in
    if carry then panics else if contains (record n { ip = y }) y then stepped y else outside y

unfoldable pub ip_increment : IpNet → Increment
ip_increment n = increment_at n (to16 n.ip)

-- The loop of lastIP over the first bytes of the network's slice; a mask that is too short panics.
unfoldable pub last_bytes : ℕ → Bytes → Bytes → Option Bytes
last_bytes zero ip mask = some []
last_bytes (suc n) (b ∷ ip) (m ∷ mask) = elim (last_bytes n ip mask) [
  | none ↦ none
  | some rest ↦ some (bit_or (bit_and b m) (bit_xor m 255) ∷ rest)
]
last_bytes (suc n) _ _ = none

-- lastIP
unfoldable pub last_ip : IpNet → Option Bytes
unfolding last_bytes
last_ip n = last_bytes (if is_some (to4 n.ip) then 4 else 16) n.ip n.mask

pub data Allocated : Type 0 where
  allocated : Bytes → Allocated
  exhausted bad_ip bad_mask crashed : Allocated
  -- Of the model alone: the rounds are used up.
  searching : Bytes → Allocated

-- What the loop does with an address that is not in use.
unfoldable pub offer : Bool → IpNet → Allocated
offer broadcast n =
    if is_some (to4 n.ip) && broadcast
    then elim (last_ip n) [
      | none ↦ crashed
      | some last ↦ if ip_equal n.ip last then exhausted else allocated n.ip
    ]
    else allocated n.ip

abbrev after : Increment → (Bytes → Allocated) → Allocated
after (stepped ip) f = f ip
after (outside ip) f = exhausted
after no_ip f = exhausted
after panics f = crashed

module _ (in_use : Bytes → Bool) where
  -- The loop of IPRequest, a round for each unit of fuel.
  unfoldable pub walk : ℕ → Bool → IpNet → Allocated
  walk zero broadcast n = searching n.ip
  walk (suc rounds) broadcast n =
      let next = after (ip_increment n) (λ ip. walk rounds broadcast (record n { ip = ip })) in
      if in_use n.ip then next else offer broadcast n

  -- The address that the loop begins with: the network's own, or the one behind it.
  unfoldable pub ip_request : ℕ → IpNet → Allocated
  ip_request rounds x =
      let n = record x { ip = or_else (to16 x.ip) x.ip } in
      let (cidr, bits) = mask_size x.mask in
      let step : Bool → Allocated =
        λ broadcast. after (ip_increment n) (λ ip. walk rounds broadcast (record n { ip = ip })) in
      if not (length x.ip == 0 || is_some (to16 x.ip))
      then bad_ip
      else if bits == 128
      then if leb cidr 120 then step false else walk rounds false n
      else if bits == 32
      then if leb cidr 24 then step true else walk rounds false n
      else bad_mask
