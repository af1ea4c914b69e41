-- ===== src/Dhcp6/Packet.antt =====
-- DHCPv6 packets: pkg/lib/dhcp/packet6.go, and the Elapsed Time option of retransmit6.go.
use sandal.Prelude.{ℕ, ◌/◌, Option, none, some, [], ◌∷◌, ◌++◌, ltb, ◌==◌, if◌then◌else◌}
use sandal.Prelude.Words.{Bytes, be16}
use sandal.Dhcp6.Options.{
  Options6, Parsed6, read, stopped, spent, ParseError6, marshal_options6, parse_options6,
  opt6_elapsed_time, option6_elapsed_time,
}

pub record Packet6 : Type 0 where
  pub msg_type : ℕ
  pub id0 : ℕ
  pub id1 : ℕ
  pub id2 : ℕ
  pub options : Options6

-- Packet6.Marshal
unfoldable pub marshal6 : Packet6 → Bytes
marshal6 p = p.msg_type ∷ p.id0 ∷ p.id1 ∷ p.id2 ∷ marshal_options6 p.options

pub data Unmarshalled6 : Type 0 where
  packet6 : Packet6 → Unmarshalled6
  too_short6 no_fuel6 : Unmarshalled6
  bad_options6 : ParseError6 → Unmarshalled6

unfoldable pub with_options6 : ℕ → ℕ → ℕ → ℕ → Parsed6 → Unmarshalled6
with_options6 t a b c (read opts) =
    packet6 (record { msg_type = t; id0 = a; id1 = b; id2 = c; options = opts })
with_options6 t a b c (stopped opts e) = bad_options6 e
with_options6 t a b c spent = no_fuel6

-- Unmarshal6
unfoldable pub unmarshal6 : Bytes → Unmarshalled6
unfolding with_options6
unmarshal6 (t ∷ a ∷ b ∷ c ∷ rest) = with_options6 t a b c (parse_options6 rest)
unmarshal6 _ = too_short6

-- elapsedCS, of a time of 0 or more in nanoseconds: the time since the first transmission.
unfoldable pub elapsed_cs : ℕ → ℕ
elapsed_cs d = let cs = d / 10_000_000 in if ltb 0xffff cs then 0xffff else cs

-- PutUint16 on the option's data, which panics on fewer than two bytes.
abbrev put_two : ℕ → Bytes → Option Bytes
put_two v (a ∷ b ∷ rest) = some (be16 v ++ rest)
put_two v _ = none

-- setElapsed; `none` is the panic.
unfoldable pub set_elapsed : ℕ → Options6 → Option Options6
set_elapsed d [] = some (option6_elapsed_time (elapsed_cs d) ∷ [])
set_elapsed d (o ∷ opts) =
    let rest = set_elapsed d opts in
    if o.code == opt6_elapsed_time
    then elim (put_two (elapsed_cs d) o.payload) [
      | none ↦ none
      | some p ↦ some (record o { payload = p } ∷ opts)
    ]
    else elim rest [ none ↦ none | some opts' ↦ some (o ∷ opts') ]
