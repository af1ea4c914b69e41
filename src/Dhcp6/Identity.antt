-- ===== src/Dhcp6/Identity.antt =====
-- The lease that toLease6 (pkg/lib/dhcp/client6.go) reads from a server's reply.
use sandal.Prelude.{
  ◌≡◌, refl, ap, ◌∙◌, ℕ, ◌<◌, true, none, some, [], ◌∷◌, ◌++◌, length, take, drop, take-append_self,
  drop-append_self, length-append, All, arith, leb, drop-append_ge,
}
use sandal.Prelude.Words.{Bytes, be32, from_be32-be32}
use sandal.Net.Ip.{to16}
use sandal.Dhcp6.Options.{
  Option6, Options6, Association, ia_na, get6, bytes_of, nested, options_of, parse_options6,
  parse_loop6, marshal_options6, parse_association, marshal_association, option6_ia_na,
  option6_ia_addr, opt6_ia_na, addresses, sixteen, or_zeros, dns6, server_id6,
}
use sandal.Dhcp6.Packet.{Packet6, marshal6, unmarshal6, packet6}
use sandal.Dhcp6.Client.{lease, to_lease6, lease_from, lease_of, seconds, message, TxId}
use sandal.Dhcp6.RoundTrip.{Fits6, parse_options6-marshal, unmarshal6-marshal6}

nested_lem : (b : Bytes) → nested b ≡ options_of (parse_options6 b)
unfolding parse_options6
nested_lem [] = unfold parse_loop6 in refl
nested_lem (x ∷ b) = refl

-- The numbers of an association fit their fields.
pub record IsAssociation (ia : Association) : Type 0 where
  pub iaid_fits : ia.iaid < 4294967296
  pub t1_fits : ia.t1 < 4294967296
  pub t2_fits : ia.t2 < 4294967296
  pub options_fit : All Fits6 ia.options

parse_association-marshal :
    (ia : Association) → IsAssociation ia → parse_association (marshal_association ia) ≡ some ia
unfolding parse_association marshal_association
parse_association-marshal ia h =
    rw
      (
        from_be32-be32 ia.iaid h.iaid_fits,
        from_be32-be32 ia.t1 h.t1_fits,
        from_be32-be32 ia.t2 h.t2_fits,
        nested_lem (marshal_options6 ia.options),
        parse_options6-marshal ia.options h.options_fit,
      )
      refl

get6-append :
    (before after : Options6) (o : Option6)
    → get6 before o.code ≡ none
    → get6 (before ++ o ∷ after) o.code ≡ some o.payload
unfolding get6
get6-append [] after o h = ground arith
get6-append (b ∷ before) after o h = ground (arith, get6-append before after o)

sixteen_lem : (ip : Bytes) → length ip ≡ 16 → sixteen ip ≡ ip
unfolding sixteen to16
sixteen_lem ip l = let e : to16 ip ≡ some ip = unfold to16 in rw l refl in ap or_zeros e

take_16 : (ip rest : Bytes) → length ip ≡ 16 → take 16 (ip ++ rest) ≡ ip
take_16 ip rest l = rw l at (take-append_self ip rest)

drop_16 : (ip rest : Bytes) → length ip ≡ 16 → drop 16 (ip ++ rest) ≡ rest
drop_16 ip rest l = rw l at (drop-append_self ip rest)

drop_20 : (ip rest : Bytes) → length ip ≡ 16 → drop 20 (ip ++ rest) ≡ drop 4 rest
drop_20 ip rest l = rw l at (drop-append_ge 20 ip rest (omega arith))

long_enough :
    (ip rest : Bytes) → length ip ≡ 16 → length rest ≡ 8 → leb 24 (length (ip ++ rest)) ≡ true
long_enough ip rest l m = ground (arith, length-append ip rest)

addresses-ia_addr :
    (ip : Bytes) (preferred valid : ℕ) (more : Options6)
    → length ip ≡ 16
    → preferred < 4294967296
    → valid < 4294967296
    → addresses (option6_ia_addr ip preferred valid ∷ more)
      ≡ record { ip = ip; preferred_lifetime = preferred; valid_lifetime = valid } ∷ addresses more
unfolding addresses option6_ia_addr
addresses-ia_addr ip preferred valid more l hp hv =
    let times : Bytes = be32 preferred ++ be32 valid in
    rw
      (
        sixteen_lem ip l,
        long_enough ip times l refl,
        take_16 ip times l,
        drop_16 ip times l,
        drop_20 ip times l,
      )
      (rw (from_be32-be32 preferred hp, from_be32-be32 valid hv) refl)

ia_na_lem :
    (before after : Options6) (ia : Association)
    → get6 before opt6_ia_na ≡ none
    → IsAssociation ia
    → ia_na (before ++ option6_ia_na ia ∷ after) ≡ some ia
unfolding ia_na option6_ia_na
ia_na_lem before after ia n h =
    ap (λ d. parse_association (bytes_of d)) (get6-append before after (option6_ia_na ia) n)
    ∙ parse_association-marshal ia h

-- A server's reply that goes over the wire gives the lease that is in it: its IA_NA, if the first
-- option of the IA_NA is an address of 16 bytes, with the lifetimes and the times T1 and T2 in
-- nanoseconds, and the other options of the reply for the name servers and the server's DUID.
pub to_lease6-marshal6 :
    (t : ℕ) (id : TxId) (before after more : Options6) (ia : Association) (ip : Bytes)
    (preferred valid : ℕ)
    → get6 before opt6_ia_na ≡ none
    → All Fits6 (before ++ option6_ia_na ia ∷ after)
    → IsAssociation ia
    → ia.options ≡ option6_ia_addr ip preferred valid ∷ more
    → length ip ≡ 16
    → preferred < 4294967296
    → valid < 4294967296
    → (p : Packet6) × (unmarshal6 (marshal6 (message t id (before ++ option6_ia_na ia ∷ after)))
        ≡ packet6 p)
      × (to_lease6 p
          ≡ lease (record {
            client_ip = ip;
            preferred_lifetime = seconds preferred;
            valid_lifetime = seconds valid;
            dns = dns6 p.options;
            server_duid = server_id6 p.options;
            t1 = seconds ia.t1;
            t2 = seconds ia.t2;
          }))
unfolding to_lease6 lease_from lease_of
to_lease6-marshal6 t id before after more ia ip preferred valid n fits h e l hp hv =
    let p : Packet6 = message t id (before ++ option6_ia_na ia ∷ after) in
    (
      p,
      unmarshal6-marshal6 p fits,
      ap (lease_from p.options) (ia_na_lem before after ia n h)
          ∙ ap (lease_of p.options ia)
              (ap addresses e ∙ addresses-ia_addr ip preferred valid more l hp hv),
    )
