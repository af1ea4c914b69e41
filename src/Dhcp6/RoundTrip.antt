-- ===== src/Dhcp6/RoundTrip.antt =====
-- What pkg/lib/dhcp writes of DHCPv6 it reads back: options, identity associations and packets.
use sandal.Prelude.{
  ◌≡◌, refl, ap, ◌∙◌, ℕ, zero, suc, ◌<◌, [], ◌∷◌, ◌++◌, length, length-append, take-append_self,
  drop-append_self, All, arith,
}
use sandal.Prelude.Words.{Bytes, u16, from_be16, from_be16-be16}
use sandal.Dhcp6.Options.{
  Option6, Options6, read, prepend6, marshal_options6, parse_loop6, parse_options6,
}
use sandal.Dhcp6.Packet.{Packet6, marshal6, unmarshal6, packet6, with_options6}

-- The code and the length of an option fit their two bytes each.
abbrev pub Fits6 : Option6 → Type 0
Fits6 o = (o.code < 65536) × (length o.payload < 65536)

-- A round of the loop on one option.
parse_loop6-option :
    (fuel c d m n : ℕ) (payload rest : Bytes)
    → from_be16 m n ≡ length payload
    → parse_loop6 (suc fuel) (c ∷ d ∷ m ∷ n ∷ (payload ++ rest))
      ≡ prepend6 (record { code = from_be16 c d; payload = payload }) (parse_loop6 fuel rest)
unfolding parse_loop6
parse_loop6-option fuel c d m n payload rest e = rw e (
    rw (take-append_self payload rest)
      (rw (drop-append_self payload rest) (ground (arith, length-append payload rest))))

parse_loop6-marshal :
    (opts : Options6) (fuel : ℕ)
    → length (marshal_options6 opts) < fuel
    → All Fits6 opts
    → parse_loop6 fuel (marshal_options6 opts) ≡ read opts
unfolding marshal_options6
parse_loop6-marshal opts zero f h = absurd (omega arith)
parse_loop6-marshal [] (suc fuel) f h = unfold parse_loop6 in refl
parse_loop6-marshal (o ∷ opts) (suc fuel) f h =
    let w : u16 (length o.payload) ≡ length o.payload = omega (arith, h.0.1) in
    let k : length (marshal_options6 opts) < fuel =
      omega (arith, length-append o.payload (marshal_options6 opts)) in
    rw w (
      parse_loop6-option fuel _ _ _ _ o.payload (marshal_options6 opts)
        (from_be16-be16 (length o.payload) h.0.1)
      ∙ ap
          (λ c.
            prepend6 (record { code = c; payload = o.payload })
              (parse_loop6 fuel (marshal_options6 opts)))
          (from_be16-be16 o.code h.0.0)
      ∙ ap (prepend6 o) (parse_loop6-marshal opts fuel k h.1))

pub parse_options6-marshal :
    (opts : Options6) → All Fits6 opts → parse_options6 (marshal_options6 opts) ≡ read opts
unfolding parse_options6
parse_options6-marshal opts h =
    parse_loop6-marshal opts (suc (length (marshal_options6 opts))) (omega arith) h

-- Unmarshal6 gives back every packet that Marshal writes, if the codes and lengths of its options
-- fit their fields.
pub unmarshal6-marshal6 : (p : Packet6) → All Fits6 p.options → unmarshal6 (marshal6 p) ≡ packet6 p
unfolding unmarshal6 marshal6 with_options6
unmarshal6-marshal6 p h = rw (parse_options6-marshal p.options h) refl
