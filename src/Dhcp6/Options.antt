-- ===== src/Dhcp6/Options.antt =====
-- DHCPv6 options: pkg/lib/dhcp/options6.go and options6_pd.go. A nil slice is `none` where the code
-- can tell it from an empty one.
use sandal.Prelude.{
  ℕ, zero, suc, ◌&&◌, Option, none, some, List, [], ◌∷◌, ◌++◌, length, take, drop, ltb, leb, ◌==◌,
  if◌then◌else◌, replicate,
}
use sandal.Prelude.Words.{Bytes, u16, be16, be32, from_be16, from_be32}
use sandal.Net.Ip.{to16}

abbrev opt6_client_id : ℕ
opt6_client_id = 1

abbrev opt6_server_id : ℕ
opt6_server_id = 2

abbrev pub opt6_ia_na : ℕ
opt6_ia_na = 3

abbrev opt6_ia_addr : ℕ
opt6_ia_addr = 5

abbrev opt6_oro : ℕ
opt6_oro = 6

abbrev pub opt6_elapsed_time : ℕ
opt6_elapsed_time = 8

abbrev opt6_status_code : ℕ
opt6_status_code = 13

abbrev pub opt6_dns_servers : ℕ
opt6_dns_servers = 23

abbrev pub opt6_ia_pd : ℕ
opt6_ia_pd = 25

abbrev opt6_ia_prefix : ℕ
opt6_ia_prefix = 26

-- `payload` is the field `Data` of the source.
pub record Option6 : Type 0 where
  pub code : ℕ
  pub payload : Bytes

abbrev pub Options6 : Type 0
Options6 = List Option6

-- Options6.Get: the first option with the code.
unfoldable pub get6 : Options6 → ℕ → Option Bytes
get6 [] code = none
get6 (o ∷ opts) code = if o.code == code then some o.payload else get6 opts code

abbrev pub bytes_of : Option Bytes → Bytes
bytes_of none = []
bytes_of (some d) = d

-- Options6.ClientID and Options6.ServerID
unfoldable pub client_id6 : Options6 → Option Bytes
client_id6 opts = get6 opts opt6_client_id

unfoldable pub server_id6 : Options6 → Option Bytes
server_id6 opts = get6 opts opt6_server_id

-- Options6.Marshal. The length is the conversion uint16(len(o.Data)), which wraps.
unfoldable pub marshal_options6 : Options6 → Bytes
marshal_options6 [] = []
marshal_options6 (o ∷ opts) =
    be16 o.code ++ (be16 (u16 (length o.payload)) ++ (o.payload ++ marshal_options6 opts))

pub data ParseError6 : Type 0 where
  header_truncated : ParseError6
  truncated6 : ℕ → ℕ → ℕ → ParseError6

-- What ParseOptions6 returns: the options read so far, with the error that ended the loop if one
-- did. `spent` is of the model alone: the fuel is used up.
pub data Parsed6 : Type 0 where
  read : Options6 → Parsed6
  stopped : Options6 → ParseError6 → Parsed6
  spent : Parsed6

-- opts = append(opts, o), on what the rest of the loop returns
abbrev pub prepend6 : Option6 → Parsed6 → Parsed6
prepend6 o (read opts) = read (o ∷ opts)
prepend6 o (stopped opts e) = stopped (o ∷ opts) e
prepend6 o spent = spent

-- The loop of ParseOptions6 on data[i:], a round for each unit of fuel.
unfoldable pub parse_loop6 : ℕ → Bytes → Parsed6
parse_loop6 zero input = spent
parse_loop6 (suc fuel) [] = read []
parse_loop6 (suc fuel) (c ∷ d ∷ m ∷ n ∷ rest) =
    let size = from_be16 m n in
    let next = parse_loop6 fuel (drop size rest) in
    if ltb (length rest) size
    then stopped [] (truncated6 (from_be16 c d) size (length rest))
    else prepend6 (record { code = from_be16 c d; payload = take size rest }) next
parse_loop6 (suc fuel) _ = stopped [] header_truncated

-- ParseOptions6. Each round but the last takes four bytes or more.
unfoldable pub parse_options6 : Bytes → Parsed6
parse_options6 input = parse_loop6 (suc (length input)) input

-- opts, _ = ParseOptions6(d): the error is dropped, the options read before it stay.
abbrev pub options_of : Parsed6 → Options6
options_of (read opts) = opts
options_of (stopped opts e) = opts
options_of spent = []

abbrev pub nested : Bytes → Options6
nested [] = []
nested (b ∷ d) = options_of (parse_options6 (b ∷ d))

-- IANA and IAPD have the same fields and wire format.
pub record Association : Type 0 where
  pub iaid : ℕ
  pub t1 : ℕ
  pub t2 : ℕ
  pub options : Options6

-- The body of Options6.IANA and parseIAPD: nil where there are fewer than 12 bytes.
unfoldable pub parse_association : Bytes → Option Association
parse_association (i0 ∷ i1 ∷ i2 ∷ i3 ∷ a0 ∷ a1 ∷ a2 ∷ a3 ∷ b0 ∷ b1 ∷ b2 ∷ b3 ∷ rest) =
    some (record {
      iaid = from_be32 i0 i1 i2 i3;
      t1 = from_be32 a0 a1 a2 a3;
      t2 = from_be32 b0 b1 b2 b3;
      options = nested rest;
    })
parse_association _ = none

-- Options6.IANA and Options6.IAPD
unfoldable pub ia_na : Options6 → Option Association
ia_na opts = parse_association (bytes_of (get6 opts opt6_ia_na))

unfoldable pub ia_pd : Options6 → Option Association
ia_pd opts = parse_association (bytes_of (get6 opts opt6_ia_pd))

-- IANA.Marshal and IAPD.Marshal
unfoldable pub marshal_association : Association → Bytes
marshal_association ia = be32 ia.iaid ++ (be32 ia.t1 ++ (be32 ia.t2 ++ marshal_options6 ia.options))

pub record IaAddr : Type 0 where
  pub ip : Bytes
  pub preferred_lifetime : ℕ
  pub valid_lifetime : ℕ

abbrev pub word32 : Bytes → ℕ
word32 (a ∷ b ∷ c ∷ d ∷ _) = from_be32 a b c d
word32 _ = 0

-- IANA.Addresses
unfoldable pub addresses : Options6 → List IaAddr
addresses [] = []
addresses (o ∷ opts) =
    let rest = addresses opts in
    if o.code == opt6_ia_addr && leb 24 (length o.payload)
    then record {
      ip = take 16 o.payload;
      preferred_lifetime = word32 (drop 16 o.payload);
      valid_lifetime = word32 (drop 20 o.payload);
    }
      ∷ rest
    else rest

pub record IaPrefix : Type 0 where
  pub preferred_lifetime : ℕ
  pub valid_lifetime : ℕ
  pub prefix_length : ℕ
  pub prefix : Bytes
  pub options : Options6

-- parseIAPrefix; its one error is `none`.
unfoldable pub parse_ia_prefix : Bytes → Option IaPrefix
parse_ia_prefix (a0 ∷ a1 ∷ a2 ∷ a3 ∷ b0 ∷ b1 ∷ b2 ∷ b3 ∷ l ∷ rest) =
    if ltb (length rest) 16
    then none
    else some (record {
      preferred_lifetime = from_be32 a0 a1 a2 a3;
      valid_lifetime = from_be32 b0 b1 b2 b3;
      prefix_length = l;
      prefix = take 16 rest;
      options = nested (drop 16 rest);
    })
parse_ia_prefix _ = none

-- IAPD.Prefixes
unfoldable pub prefixes : Options6 → List IaPrefix
prefixes [] = []
prefixes (o ∷ opts) =
    let rest = prefixes opts in
    if o.code == opt6_ia_prefix
    then elim (parse_ia_prefix o.payload) [ none ↦ rest | some p ↦ p ∷ rest ]
    else rest

-- Options6.DNS: a part of fewer than 16 bytes at the end is dropped. Each round takes a unit of
-- fuel, of which there is one for each byte.
unfoldable pub groups : ℕ → Bytes → List Bytes
groups zero d = []
groups (suc fuel) d =
    let rest = groups fuel (drop 16 d) in if leb 16 (length d) then take 16 d ∷ rest else []

unfoldable pub dns6 : Options6 → List Bytes
unfolding groups
dns6 opts = let d = bytes_of (get6 opts opt6_dns_servers) in groups (length d) d

-- Options6.StatusCode
unfoldable pub status_of : Bytes → ℕ × Bytes
status_of (a ∷ b ∷ msg) = (from_be16 a b, msg)
status_of _ = (0, [])

unfoldable pub status_code : Options6 → ℕ × Bytes
unfolding status_of
status_code opts = status_of (bytes_of (get6 opts opt6_status_code))

-- ip.To16() copied into 16 zeroed bytes; nil gives zeros.
abbrev pub or_zeros : Option Bytes → Bytes
or_zeros none = replicate 16 0
or_zeros (some ip) = ip

unfoldable pub sixteen : Bytes → Bytes
sixteen ip = or_zeros (to16 ip)

-- The builders of single options.
unfoldable pub duid_ll : ℕ → Bytes → Bytes
duid_ll hw_type mac = be16 3 ++ (be16 hw_type ++ mac)

unfoldable pub option6_client_id : Bytes → Option6
option6_client_id duid = record { code = opt6_client_id; payload = duid }

unfoldable pub option6_server_id : Bytes → Option6
option6_server_id duid = record { code = opt6_server_id; payload = duid }

unfoldable pub option6_ia_na : Association → Option6
option6_ia_na ia = record { code = opt6_ia_na; payload = marshal_association ia }

unfoldable pub option6_ia_pd : Association → Option6
option6_ia_pd ia = record { code = opt6_ia_pd; payload = marshal_association ia }

unfoldable pub option6_ia_addr : Bytes → ℕ → ℕ → Option6
option6_ia_addr ip preferred valid = record {
  code = opt6_ia_addr;
  payload = sixteen ip ++ (be32 preferred ++ be32 valid);
}

unfoldable pub option6_ia_prefix : IaPrefix → Option6
option6_ia_prefix p = record {
  code = opt6_ia_prefix;
  payload =
      be32 p.preferred_lifetime
      ++ (be32 p.valid_lifetime
          ++ (p.prefix_length ∷ (sixteen p.prefix ++ marshal_options6 p.options)));
}

abbrev all_be16 : List ℕ → Bytes
all_be16 [] = []
all_be16 (c ∷ codes) = be16 c ++ all_be16 codes

unfoldable pub option6_oro : List ℕ → Option6
option6_oro codes = record { code = opt6_oro; payload = all_be16 codes }

unfoldable pub option6_elapsed_time : ℕ → Option6
option6_elapsed_time cs = record { code = opt6_elapsed_time; payload = be16 cs }
