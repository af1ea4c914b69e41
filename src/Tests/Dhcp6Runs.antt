-- ===== src/Tests/Dhcp6Runs.antt =====
-- Runs of the DHCPv6 client of pkg/lib/dhcp.
use sandal.Prelude.{◌≡◌, refl, true, false, none, some, [], ◌∷◌, ◌++◌, All, arith, length}
use sandal.Prelude.Words.{Bytes}
use sandal.Net.Ip.{to16}
use sandal.Dhcp6.Options.{
  Options6, Association, get6, client_id6, server_id6, marshal_options6, parse_options6,
  parse_loop6, truncated6, stopped, ia_na, ia_pd, parse_association, marshal_association, addresses,
  prefixes, parse_ia_prefix, dns6, groups, status_code, status_of, sixteen, duid_ll, opt6_ia_na,
  option6_client_id, option6_server_id, option6_ia_na, option6_ia_pd, option6_ia_addr,
  option6_ia_prefix, option6_oro, option6_elapsed_time,
}
use sandal.Dhcp6.Packet.{
  Packet6, packet6, marshal6, unmarshal6, with_options6, elapsed_cs, set_elapsed,
}
use sandal.Dhcp6.RoundTrip.{Fits6}
use sandal.Dhcp6.Client.{
  Lease6, TxId, lease, no_lease, no_association, refused, message, seconds, to_lease6, lease_from,
  lease_of, to_pd_lease, pd_lease_from, pd_lease_of, new_solicit, new_request, renew_packet,
  release_packet, new_pd_solicit, new_pd_request,
}
use sandal.Dhcp6.Exchange.{
  Round, datagram, slice_over, answered, unanswered, exchange, timed, after, transmit, listen,
}
use sandal.Dhcp6.Answers.{IsExchange, exchange-IsExchange}
use sandal.Dhcp6.Identity.{IsAssociation, to_lease6-marshal6}

abbrev id : TxId
id = record { a = 1; b = 2; c = 3 }

abbrev duid : Bytes
duid = 0 ∷ 3 ∷ 0 ∷ 1 ∷ 82 ∷ 84 ∷ []

abbrev ip : Bytes
ip = 0x20 ∷ 1 ∷ 0xd ∷ 0xb8 ∷ 0 ∷ 0 ∷ 0 ∷ 0 ∷ 0 ∷ 0 ∷ 0 ∷ 0 ∷ 0 ∷ 0 ∷ 0 ∷ 7 ∷ []

abbrev ia : Association
ia = record { iaid = 1; t1 = 100; t2 = 160; options = option6_ia_addr ip 200 300 ∷ [] }

abbrev front : Options6
front = record { code = 1; payload = duid } ∷ record { code = 2; payload = 9 ∷ [] } ∷ []

abbrev reply : Packet6
reply = message 7 id (front ++ option6_ia_na ia ∷ [])

reply-Fits6 : All Fits6 reply.options
unfolding option6_ia_na marshal_association option6_ia_addr sixteen to16 marshal_options6
reply-Fits6 =
    ((omega arith, omega arith), ((omega arith, omega arith), ((omega arith, omega arith), tt)))

ia-IsAssociation : IsAssociation ia
unfolding option6_ia_addr sixteen to16
ia-IsAssociation = record {
  iaid_fits = omega arith;
  t1_fits = omega arith;
  t2_fits = omega arith;
  options_fit = ((omega arith, omega arith), tt);
}

front_lem : get6 front opt6_ia_na ≡ none
unfolding get6
front_lem = refl

to_lease6-marshal6_example :
    (p : Packet6) × (unmarshal6 (marshal6 reply) ≡ packet6 p)
    × (to_lease6 p
        ≡ lease (record {
          client_ip = ip;
          preferred_lifetime = seconds 200;
          valid_lifetime = seconds 300;
          dns = dns6 p.options;
          server_duid = server_id6 p.options;
          t1 = seconds 100;
          t2 = seconds 160;
        }))
to_lease6-marshal6_example =
    to_lease6-marshal6 7 id front [] [] ia ip 200 300 front_lem reply-Fits6 ia-IsAssociation refl
      refl (omega arith) (omega arith)

-- Two transmissions of a Solicit: nothing is heard, and then a reply with another transaction ID
-- and the server's answer.
abbrev silent : Round
silent = record { elapsed = 0; sent = true; heard = slice_over ∷ []; over = false }

abbrev lucky : Round
lucky = record {
  elapsed = 1_200_000_000;
  sent = true;
  heard = datagram (2 ∷ 1 ∷ 2 ∷ 4 ∷ []) ∷ datagram (2 ∷ 1 ∷ 2 ∷ 3 ∷ []) ∷ [];
  over = false;
}

abbrev solicit : Packet6
solicit = message 1 id (record { code = 8; payload = 0 ∷ 0 ∷ [] } ∷ [])

exchange-IsExchange_example :
    IsExchange solicit 2 3 1 (exchange solicit 2 3 1 (silent ∷ lucky ∷ []))
exchange-IsExchange_example = exchange-IsExchange solicit 2 3 (silent ∷ lucky ∷ [])

exchanges :
    (exchange solicit 2 3 1 (silent ∷ lucky ∷ []) ≡ (
      solicit ∷ message 1 id (record { code = 8; payload = 0 ∷ 120 ∷ [] } ∷ []) ∷ [],
      answered (message 2 id []),
    ))
    × ((exchange solicit 2 2 1 (silent ∷ silent ∷ lucky ∷ [])).1 ≡ unanswered)
    × (elapsed_cs 700_000_000_000 ≡ 65535)
unfolding exchange timed after transmit listen set_elapsed elapsed_cs unmarshal6 with_options6
    parse_options6 parse_loop6
exchanges = (refl, refl, refl)

-- A reply with a status, one without an association, one that delegates a prefix, and options that
-- are cut off.
abbrev delegated : Association
delegated = record {
  iaid = 1;
  t1 = 5;
  t2 = 6;
  options =
      option6_ia_prefix (record {
        preferred_lifetime = 7;
        valid_lifetime = 8;
        prefix_length = 56;
        prefix = ip;
        options = [];
      })
      ∷ [];
}

abbrev refusing : Association
refusing = record {
  iaid = 1;
  t1 = 0;
  t2 = 0;
  options = record { code = 13; payload = 0 ∷ 2 ∷ 33 ∷ [] } ∷ [];
}

leases :
    (to_lease6 (message 7 id (option6_ia_na refusing ∷ [])) ≡ no_lease (refused 2 (33 ∷ [])))
    × (to_lease6 (message 7 id []) ≡ no_lease no_association)
    × (to_pd_lease (message 7 id (option6_server_id duid ∷ option6_ia_pd delegated ∷ []))
        ≡ lease (record {
          prefix = ip;
          prefix_length = 56;
          preferred_lifetime = seconds 7;
          valid_lifetime = seconds 8;
          server_duid = some duid;
          t1 = seconds 5;
          t2 = seconds 6;
        }))
    × (parse_options6 (0 ∷ 1 ∷ 0 ∷ 1 ∷ 9 ∷ 0 ∷ 2 ∷ 0 ∷ 3 ∷ 9 ∷ [])
        ≡ stopped (record { code = 1; payload = 9 ∷ [] } ∷ []) (truncated6 2 3 1))
    × (dns6 (record { code = 23; payload = ip ++ 1 ∷ [] } ∷ []) ≡ ip ∷ [])
unfolding to_lease6 lease_from lease_of to_pd_lease pd_lease_from pd_lease_of ia_na ia_pd get6
    option6_ia_na option6_ia_pd option6_server_id server_id6 parse_association marshal_association
    marshal_options6 parse_options6 parse_loop6 addresses prefixes parse_ia_prefix option6_ia_prefix
    sixteen to16 status_code status_of dns6 groups
leases = (refl, refl, refl, refl, refl)

-- What the client sends.
abbrev held : Lease6
held = record {
  client_ip = ip;
  preferred_lifetime = 0;
  valid_lifetime = 0;
  dns = [];
  server_duid = some duid;
  t1 = 0;
  t2 = 0;
}

sends :
    (length (marshal6 (new_solicit duid id)) ≡ 42)
    × (length (marshal6 (new_request duid id reply)) ≡ 75)
    × (length (marshal6 (renew_packet duid id held)) ≡ 80)
    × (length (marshal6 (release_packet duid id held)) ≡ 68)
    × (length (marshal6 (new_pd_solicit duid id 56)) ≡ 71)
    × (marshal6 (new_pd_request duid id (message 2 id []))
        ≡ 3 ∷ 1 ∷ 2 ∷ 3 ∷ 0 ∷ 1 ∷ 0 ∷ 6 ∷ (duid ++ 0 ∷ 8 ∷ 0 ∷ 2 ∷ 0 ∷ 0 ∷ []))
    × (client_id6 (new_solicit (duid_ll 1 (82 ∷ 84 ∷ [])) id).options ≡ some duid)
unfolding new_solicit new_request renew_packet release_packet new_pd_solicit new_pd_request marshal6
    marshal_options6 option6_client_id option6_server_id option6_ia_na option6_ia_pd option6_ia_addr
    option6_ia_prefix option6_oro option6_elapsed_time marshal_association sixteen to16 server_id6
    get6 client_id6 duid_ll
sends = (refl, refl, refl, refl, refl, refl, refl)
