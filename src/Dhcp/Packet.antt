-- ===== src/Dhcp/Packet.antt =====
-- DHCPv4 packets: pkg/lib/dhcp/packet.go.
use sandal.Prelude.{
  ℕ, ◌+◌, [], ◌∷◌, ◌++◌, length, take, drop, replicate, get_or, ltb, ◌==◌, if◌then◌else◌, min,
}
use sandal.Prelude.Words.{Bytes, be16, be32, from_be16, from_be32}
use sandal.Dhcp.Options.{
  Options, ParseError, Parsed, ok, failed, out_of_fuel, marshal_options, parse_options, opt_end,
  ip_to4,
}

abbrev pub magic_cookie : ℕ
magic_cookie = 0x63825363

abbrev header_size : ℕ
header_size = 236

pub record Packet : Type 0 where
  pub op : ℕ
  pub htype : ℕ
  pub hlen : ℕ
  pub hops : ℕ
  pub xid : ℕ
  pub secs : ℕ
  pub flags : ℕ
  pub ciaddr : Bytes
  pub yiaddr : Bytes
  pub siaddr : Bytes
  pub giaddr : Bytes
  pub chaddr : Bytes
  pub options : Options

-- copy(buf[a:a+n], b) into zeroed bytes: n bytes, cut or filled up with zeros.
unfoldable pub copy_into : ℕ → Bytes → Bytes
copy_into n b = take n (b ++ replicate n 0)

-- Packet.Marshal: 28 bytes of fixed fields and addresses, chaddr, sname and file left at zero, the
-- cookie, the options and the End marker.
unfoldable pub marshal : Packet → Bytes
unfolding marshal_options ip_to4 copy_into
marshal p =
    p.op
    ∷ p.htype
    ∷ p.hlen
    ∷ p.hops
    ∷ (be32 p.xid
        ++ (be16 p.secs
            ++ (be16 p.flags
                ++ (copy_into 4 (ip_to4 p.ciaddr)
                    ++ (copy_into 4 (ip_to4 p.yiaddr)
                        ++ (copy_into 4 (ip_to4 p.siaddr)
                            ++ (copy_into 4 (ip_to4 p.giaddr)
                                ++ (copy_into 16 p.chaddr
                                    ++ (replicate 192 0
                                        ++ (be32 magic_cookie
                                            ++ (marshal_options p.options ++ opt_end ∷ [])))))))))))

pub data UnmarshalError : Type 0 where
  too_short bad_cookie no_fuel : UnmarshalError
  bad_options : ParseError → UnmarshalError

pub data Unmarshalled : Type 0 where
  packet : Packet → Unmarshalled
  err : UnmarshalError → Unmarshalled

-- b[i : i + n]
abbrev pub slice : ℕ → ℕ → Bytes → Bytes
slice i n b = take n (drop i b)

abbrev word32 : Bytes → ℕ
word32 (w ∷ x ∷ y ∷ z ∷ []) = from_be32 w x y z
word32 _ = 0

abbrev word16 : Bytes → ℕ
word16 (y ∷ z ∷ []) = from_be16 y z
word16 _ = 0

-- The fields of Unmarshal before the options; the code has checked that the packet holds them all.
abbrev pub header_of : Bytes → Options → Packet
header_of b opts = record {
  op = get_or b 0 0;
  htype = get_or b 1 0;
  hlen = get_or b 2 0;
  hops = get_or b 3 0;
  xid = word32 (slice 4 4 b);
  secs = word16 (slice 8 2 b);
  flags = word16 (slice 10 2 b);
  ciaddr = slice 12 4 b;
  yiaddr = slice 16 4 b;
  siaddr = slice 20 4 b;
  giaddr = slice 24 4 b;
  chaddr = slice 28 (min (get_or b 2 0) 16) b;
  options = opts;
}

abbrev with_options : Bytes → Parsed → Unmarshalled
with_options b (ok opts) = packet (header_of b opts)
with_options b (failed opts e) = err (bad_options e)
with_options b out_of_fuel = err no_fuel

unfoldable pub unmarshal : Bytes → Unmarshalled
unmarshal b =
    if ltb (length b) (header_size + 4)
    then err too_short
    else if word32 (slice header_size 4 b) == magic_cookie
    then with_options b (parse_options (drop (header_size + 4) b))
    else err bad_cookie
