-- ===== src/Dhcp/Options.antt =====
-- DHCPv4 options: pkg/lib/dhcp/options.go, and ipTo4 of packet.go. A nil slice is `none` where the
-- code can tell it from an empty one.
use sandal.Prelude.{
  ℕ, zero, suc, Bool, ◌||◌, ◌&&◌, Option, none, some, List, [], ◌∷◌, ◌++◌, length, take, drop, ltb,
  leb, ◌==◌, if◌then◌else◌,
}
use sandal.Prelude.Words.{Bytes, u8, from_be32}
use sandal.Prelude.Text.{equal}

abbrev pub opt_pad : ℕ
opt_pad = 0

abbrev opt_subnet_mask : ℕ
opt_subnet_mask = 1

abbrev opt_router : ℕ
opt_router = 3

abbrev opt_dns : ℕ
opt_dns = 6

abbrev opt_domain_name : ℕ
opt_domain_name = 15

abbrev opt_lease_time : ℕ
opt_lease_time = 51

abbrev opt_message_type : ℕ
opt_message_type = 53

abbrev opt_server_id : ℕ
opt_server_id = 54

abbrev pub opt_end : ℕ
opt_end = 255

-- `Option` of the source; `payload` is its field `Data`.
pub record DhcpOption : Type 0 where
  pub code : ℕ
  pub payload : Bytes

abbrev pub Options : Type 0
Options = List DhcpOption

-- Options.Get: the first option with the code.
get : Options → ℕ → Option Bytes
get [] code = none
get (o ∷ opts) code = if o.code == code then some o.payload else get opts code

-- len(d) of a slice that may be nil
abbrev pub len : Option Bytes → ℕ
len none = 0
len (some d) = length d

abbrev bytes_of : Option Bytes → Bytes
bytes_of none = []
bytes_of (some d) = d

-- The one byte of a slice of length 1, and the big-endian word of one of length 4; 0 otherwise.
sole_byte : Option Bytes → ℕ
sole_byte (some (b ∷ [])) = b
sole_byte _ = 0

sole_word : Option Bytes → ℕ
sole_word (some (a ∷ b ∷ c ∷ d ∷ [])) = from_be32 a b c d
sole_word _ = 0

-- Options.MessageType
unfoldable pub message_type : Options → ℕ
unfolding get sole_byte
message_type opts = sole_byte (get opts opt_message_type)

-- The body of ServerID and SubnetMask: a copy of exactly four bytes, or nil.
exactly_four : Option Bytes → Option Bytes
exactly_four d = if len d == 4 then some (bytes_of d) else none

unfoldable pub server_id : Options → Option Bytes
unfolding get exactly_four
server_id opts = exactly_four (get opts opt_server_id)

unfoldable pub subnet_mask : Options → Option Bytes
unfolding get exactly_four
subnet_mask opts = exactly_four (get opts opt_subnet_mask)

-- Options.Router: the first of the addresses.
unfoldable pub router : Options → Option Bytes
unfolding get
router opts =
    let d = get opts opt_router in if leb 4 (len d) then some (take 4 (bytes_of d)) else none

-- The loop of Options.DNS over whole groups of four bytes.
groups_of_four : Bytes → List Bytes
groups_of_four (a ∷ b ∷ c ∷ d ∷ rest) = (a ∷ b ∷ c ∷ d ∷ []) ∷ groups_of_four rest
groups_of_four _ = []

unfoldable pub dns : Options → List Bytes
unfolding get groups_of_four
dns opts = groups_of_four (bytes_of (get opts opt_dns))

-- Options.LeaseTime
unfoldable pub lease_time : Options → ℕ
unfolding get sole_word
lease_time opts = sole_word (get opts opt_lease_time)

-- Options.DomainName; an empty string where the option is missing.
unfoldable pub domain_name : Options → Bytes
unfolding get
domain_name opts = bytes_of (get opts opt_domain_name)

abbrev pub is_marker : DhcpOption → Bool
is_marker o = o.code == opt_pad || o.code == opt_end

-- Options.Marshal. The length byte is the conversion byte(len(o.Data)), which wraps.
unfoldable pub marshal_options : Options → Bytes
marshal_options [] = []
marshal_options (o ∷ opts) =
    let rest = marshal_options opts in
    if is_marker o then rest else o.code ∷ u8 (length o.payload) ∷ (o.payload ++ rest)

pub data ParseError : Type 0 where
  no_length : ℕ → ParseError
  truncated : ℕ → ℕ → ℕ → ParseError

-- What ParseOptions returns: the options read so far, with the error that ended the loop if one
-- did. `out_of_fuel` is of the model alone.
pub data Parsed : Type 0 where
  ok : Options → Parsed
  failed : Options → ParseError → Parsed
  out_of_fuel : Parsed

-- opts = append(opts, o), on what the rest of the loop returns
abbrev pub prepend : DhcpOption → Parsed → Parsed
prepend o (ok opts) = ok (o ∷ opts)
prepend o (failed opts e) = failed (o ∷ opts) e
prepend o out_of_fuel = out_of_fuel

-- The loop of ParseOptions on data[i:], a round for each unit of fuel.
unfoldable pub parse_loop : ℕ → Bytes → Parsed
parse_loop zero input = out_of_fuel
parse_loop (suc fuel) [] = ok []
parse_loop (suc fuel) (code ∷ []) =
    if code == opt_pad
    then parse_loop fuel []
    else if code == opt_end
    then ok []
    else failed [] (no_length code)
parse_loop (suc fuel) (code ∷ n ∷ rest) =
    let padded = parse_loop fuel (n ∷ rest) in
    let next = parse_loop fuel (drop n rest) in
    if code == opt_pad
    then padded
    else if code == opt_end
    then ok []
    else if ltb (length rest) n
    then failed [] (truncated code n (length rest))
    else prepend (record { code = code; payload = take n rest }) next

-- ParseOptions. Each round takes a byte at least, so one round for each byte and one for the end
-- are enough (`parse_loop_enough` in Parse).
unfoldable pub parse_options : Bytes → Parsed
unfolding parse_loop
parse_options input = parse_loop (suc (length input)) input

-- ipTo4 with net.IP.To4: four bytes stay, an IPv4-mapped address gives its last four, and anything
-- else 0.0.0.0.
abbrev zero_ip : Bytes
zero_ip = 0 ∷ 0 ∷ 0 ∷ 0 ∷ []

abbrev mapped_prefix : Bytes
mapped_prefix = 0 ∷ 0 ∷ 0 ∷ 0 ∷ 0 ∷ 0 ∷ 0 ∷ 0 ∷ 0 ∷ 0 ∷ 255 ∷ 255 ∷ []

unfoldable pub ip_to4 : Bytes → Bytes
unfolding equal
ip_to4 ip =
    if length ip == 4
    then ip
    else if length ip == 16 && equal (take 12 ip) mapped_prefix
    then drop 12 ip
    else zero_ip

-- The builders of single options.
unfoldable pub option_message_type : ℕ → DhcpOption
option_message_type mt = record { code = opt_message_type; payload = mt ∷ [] }

unfoldable pub option_requested_ip : Bytes → DhcpOption
unfolding ip_to4
option_requested_ip ip = record { code = 50; payload = ip_to4 ip }

unfoldable pub option_server_id : Bytes → DhcpOption
unfolding ip_to4
option_server_id ip = record { code = opt_server_id; payload = ip_to4 ip }

unfoldable pub option_client_id : ℕ → Bytes → DhcpOption
option_client_id hw_type mac = record { code = 61; payload = hw_type ∷ mac }

unfoldable pub option_param_request_list : Bytes → DhcpOption
option_param_request_list codes = record { code = 55; payload = codes }

unfoldable pub option_hostname : Bytes → DhcpOption
option_hostname name = record { code = 12; payload = name }
