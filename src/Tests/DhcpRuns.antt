-- ===== src/Tests/DhcpRuns.antt =====
-- pkg/lib/dhcp on small messages.
use sandal.Prelude.{◌≡◌, refl, some, none, [], ◌∷◌, arith, length}
use sandal.Prelude.Words.{Bytes}
use sandal.Dhcp.Options.{
  Options, ok, failed, truncated, marshal_options, parse_options, message_type, dns, lease_time,
  router, subnet_mask, domain_name, option_message_type, option_requested_ip, option_server_id,
  option_client_id, option_param_request_list, option_hostname, ip_to4, server_id,
}
use sandal.Dhcp.Packet.{Packet, marshal, unmarshal, packet}
use sandal.Dhcp.RoundTrip.{normal, unmarshal-marshal}

abbrev offer : Options
offer =
    record { code = 53; payload = 2 ∷ [] }
    ∷ record { code = 0; payload = [] }
    ∷ record { code = 51; payload = 0 ∷ 0 ∷ 14 ∷ 16 ∷ [] }
    ∷ []

abbrev request : Packet
request = record {
  op = 1;
  htype = 1;
  hlen = 6;
  hops = 0;
  xid = 0xdeadbeef;
  secs = 3;
  flags = 0x8000;
  ciaddr = [];
  yiaddr = 10 ∷ 0 ∷ 0 ∷ 7 ∷ [];
  siaddr = [];
  giaddr = [];
  chaddr = 2 ∷ 66 ∷ 1 ∷ 2 ∷ 3 ∷ 4 ∷ [];
  options = offer;
}

accessors :
    (message_type offer ≡ 2)
    × (lease_time offer ≡ 3600)
    × (dns (record { code = 6; payload = 8 ∷ 8 ∷ 8 ∷ 8 ∷ 1 ∷ [] } ∷ []) ≡ (8 ∷ 8 ∷ 8 ∷ 8 ∷ []) ∷ [])
unfolding message_type lease_time dns
accessors = (refl, refl, refl)

abbrev discover : Options
discover =
    option_message_type 1
    ∷ option_client_id 1 (2 ∷ 66 ∷ 1 ∷ 2 ∷ 3 ∷ 4 ∷ [])
    ∷ option_requested_ip (10 ∷ 0 ∷ 0 ∷ 7 ∷ [])
    ∷ option_server_id (10 ∷ 0 ∷ 0 ∷ 1 ∷ [])
    ∷ option_param_request_list (1 ∷ 3 ∷ 6 ∷ [])
    ∷ option_hostname (118 ∷ 109 ∷ [])
    ∷ []

builders :
    (message_type discover ≡ 1)
    × (server_id discover ≡ some (10 ∷ 0 ∷ 0 ∷ 1 ∷ []))
    × (subnet_mask discover ≡ none)
    × (router (record { code = 3; payload = 10 ∷ 0 ∷ 0 ∷ 1 ∷ 10 ∷ [] } ∷ [])
        ≡ some (10 ∷ 0 ∷ 0 ∷ 1 ∷ []))
    × (domain_name discover ≡ [])
    × (length (marshal_options discover) ≡ 33)
unfolding message_type server_id router subnet_mask domain_name marshal_options option_message_type
    option_client_id option_requested_ip option_server_id option_param_request_list option_hostname
    ip_to4
builders = (refl, refl, refl, refl, refl, refl)

parses_truncated : parse_options (12 ∷ 4 ∷ 97 ∷ []) ≡ failed [] (truncated 12 4 1)
unfolding parse_options
parses_truncated = refl

length-marshal-request : length (marshal request) ≡ 250
unfolding marshal
length-marshal-request = refl

unmarshal-marshal_example : unmarshal (marshal request) ≡ packet (normal request)
unmarshal-marshal_example = unmarshal-marshal request (record {
  xid_fits = omega arith;
  secs_fits = omega arith;
  flags_fits = omega arith;
  options_fit = omega arith;
})

abbrev wire : Bytes
wire = 0 ∷ 12 ∷ 2 ∷ 97 ∷ 98 ∷ 0 ∷ 255 ∷ 9 ∷ []

abbrev named : Options
named = record { code = 12; payload = 97 ∷ 98 ∷ [] } ∷ []

parses_wire : parse_options wire ≡ ok named
unfolding parse_options
parses_wire = refl
