-- ===== src/Dhcp/RoundTrip.antt =====
-- What pkg/lib/dhcp writes it reads back: options and whole DHCPv4 packets.
use sandal.Prelude.{
  ℕ, zero, suc, ◌-◌, ◌/◌, ◌≤◌, ◌<◌, ◌≡◌, refl, ap, ◌∙◌, inl, inr, false, [], ◌∷◌, ◌++◌, arith,
  length, take, drop, replicate, min, length-append, length-take, length-drop, length-replicate,
  take-append_self, drop-append_self, take-append_le, drop-append_ge, All, Bool-cases, ltb, ◌==◌,
  if◌then◌else◌, append_assoc,
}
use sandal.Prelude.Words.{Bytes, u8, be32, from_be16, from_be32}
use sandal.Dhcp.Options.{
  DhcpOption, Options, ok, prepend, is_marker, marshal_options, parse_loop, parse_options, opt_end,
  opt_pad, ip_to4,
}
use sandal.Dhcp.Packet.{
  Packet, marshal, unmarshal, packet, header_of, copy_into, slice, magic_cookie,
}

-- The options that Marshal writes: all but Pad and End.
abbrev pub without_markers : Options → Options
without_markers [] = []
without_markers (o ∷ opts) = if is_marker o then without_markers opts else o ∷ without_markers opts

abbrev pub Fits : DhcpOption → Type 0
Fits o = length o.payload < 256

-- Reading past one well-formed option.
parse_loop-option :
    (fuel code : ℕ) (payload rest : Bytes)
    → (code == opt_pad) ≡ false
    → (code == opt_end) ≡ false
    → parse_loop (suc fuel) (code ∷ length payload ∷ (payload ++ rest))
      ≡ prepend (record { code = code; payload = payload }) (parse_loop fuel rest)
unfolding parse_loop
parse_loop-option fuel code payload rest p e =
    rw (p, e)
      (rw (take-append_self payload rest)
        (rw (drop-append_self payload rest) (ground (arith, length-append payload rest))))

parse_loop-marshal :
    (opts : Options) (fuel : ℕ) (rest : Bytes)
    → length (marshal_options opts) < fuel
    → All Fits opts
    → parse_loop fuel (marshal_options opts ++ opt_end ∷ rest) ≡ ok (without_markers opts)
unfolding marshal_options
parse_loop-marshal opts zero rest f h = absurd (omega arith)
parse_loop-marshal [] (suc fuel) [] f h = unfold parse_loop in refl
parse_loop-marshal [] (suc fuel) (r ∷ rest) f h = unfold parse_loop in refl
parse_loop-marshal (o ∷ opts) (suc fuel) rest f h = elim (Bool-cases (is_marker o)) [
  | inl m ↦ rw m (parse_loop-marshal opts (suc fuel) rest (rw m at f) h.1)
  | inr m ↦
      let fits : u8 (length o.payload) ≡ length o.payload = omega (arith, h.0) in
      rw (m, fits, append_assoc o.payload (marshal_options opts) (opt_end ∷ rest))
        (parse_loop-option fuel o.code o.payload _ (ground arith) (ground arith)
          ∙ ap (prepend o) (
              parse_loop-marshal opts fuel rest
                (omega (arith, rw m at f, length-append o.payload (marshal_options opts))) h.1))
]

-- ParseOptions reads back what Marshal wrote and the End marker closed, whatever follows it: all
-- the options but Pad and End, in their order, if no value is longer than 255 bytes.
pub parse_options-marshal_options :
    (opts : Options) (rest : Bytes)
    → All Fits opts
    → parse_options (marshal_options opts ++ opt_end ∷ rest) ≡ ok (without_markers opts)
unfolding parse_options
parse_options-marshal_options opts rest h =
    parse_loop-marshal opts (suc (length (marshal_options opts ++ opt_end ∷ rest))) rest
      (omega (arith, length-append (marshal_options opts) (opt_end ∷ rest))) h

-- An address is always written as four bytes.
length-ip_to4 : (ip : Bytes) → length (ip_to4 ip) ≡ 4
unfolding ip_to4
length-ip_to4 ip = ground (arith, length-drop 12 ip)

four_bytes :
    (b : Bytes) → length b ≡ 4 → (w : ℕ) × (x : ℕ) × (y : ℕ) × (z : ℕ) × (b ≡ w ∷ x ∷ y ∷ z ∷ [])
four_bytes (w ∷ x ∷ y ∷ z ∷ []) h = (w, x, y, z, refl)
four_bytes [] h = absurd (omega arith)
four_bytes (w ∷ []) h = absurd (omega arith)
four_bytes (w ∷ x ∷ []) h = absurd (omega arith)
four_bytes (w ∷ x ∷ y ∷ []) h = absurd (omega arith)
four_bytes (w ∷ x ∷ y ∷ z ∷ v ∷ b) h = absurd (omega arith)

length-copy_into : (n : ℕ) (b : Bytes) → length (copy_into n b) ≡ n
unfolding copy_into
length-copy_into n b = omega (
  arith,
  length-take n (b ++ replicate n 0),
  length-append b (replicate n 0),
  length-replicate {A = ℕ} n 0,
)

-- The chaddr field as it is read back: hlen bytes of it, 16 at most.
abbrev read_chaddr : Packet → Bytes
read_chaddr p = take (min p.hlen 16) (copy_into 16 p.chaddr)

abbrev pub normal : Packet → Packet
normal p = record p {
  ciaddr = ip_to4 p.ciaddr;
  yiaddr = ip_to4 p.yiaddr;
  siaddr = ip_to4 p.siaddr;
  giaddr = ip_to4 p.giaddr;
  chaddr = read_chaddr p;
  options = without_markers p.options;
}

-- The numbers of a packet fit their fields, and each option its length byte.
pub record IsWire (p : Packet) : Type 0 where
  pub xid_fits : p.xid < 4294967296
  pub secs_fits : p.secs < 65536
  pub flags_fits : p.flags < 65536
  pub options_fit : All Fits p.options

-- The length and the cookie are right: Unmarshal goes on to the options.
unmarshal_lem :
    (b : Bytes) (opts : Options)
    → ltb (length b) 240 ≡ false
    → slice 236 4 b ≡ be32 magic_cookie
    → parse_options (drop 240 b) ≡ ok opts
    → unmarshal b ≡ packet (header_of b opts)
unfolding unmarshal
unmarshal_lem b opts long cookie parsed = rw (long, cookie, parsed)

-- What Marshal writes behind the addresses, over any chaddr field and any options.
abbrev behind : Bytes → Bytes → Bytes
behind ch rest = ch ++ (replicate 192 0 ++ (be32 magic_cookie ++ rest))

drop-behind :
    (ch rest : Bytes) (n : ℕ)
    → length ch ≡ 16
    → 16 ≤ n
    → drop n (behind ch rest) ≡ drop (n - 16) (replicate 192 0 ++ (be32 magic_cookie ++ rest))
drop-behind ch rest n e h =
    let tail : Bytes = replicate 192 0 ++ (be32 magic_cookie ++ rest) in
    drop-append_ge n ch tail (omega arith) ∙ ap (λ k. drop (n - k) tail) e

-- Unmarshal on the bytes of a packet, written out as far as the chaddr field.
unmarshal-fields :
    (op ht hl ho x0 x1 x2 x3 e0 e1 f0 f1 : ℕ) (c0 c1 c2 c3 y0 y1 y2 y3 s0 s1 s2 s3 g0 g1 g2 g3 : ℕ)
    (ch rest : Bytes) (opts : Options)
    → length ch ≡ 16
    → parse_options rest ≡ ok opts
    → unmarshal (
        op
        ∷ ht
        ∷ hl
        ∷ ho
        ∷ x0
        ∷ x1
        ∷ x2
        ∷ x3
        ∷ e0
        ∷ e1
        ∷ f0
        ∷ f1
        ∷ c0
        ∷ c1
        ∷ c2
        ∷ c3
        ∷ y0
        ∷ y1
        ∷ y2
        ∷ y3
        ∷ s0
        ∷ s1
        ∷ s2
        ∷ s3
        ∷ g0
        ∷ g1
        ∷ g2
        ∷ g3
        ∷ behind ch rest)
      ≡ packet (record {
        op = op;
        htype = ht;
        hlen = hl;
        hops = ho;
        xid = from_be32 x0 x1 x2 x3;
        secs = from_be16 e0 e1;
        flags = from_be16 f0 f1;
        ciaddr = c0 ∷ c1 ∷ c2 ∷ c3 ∷ [];
        yiaddr = y0 ∷ y1 ∷ y2 ∷ y3 ∷ [];
        siaddr = s0 ∷ s1 ∷ s2 ∷ s3 ∷ [];
        giaddr = g0 ∷ g1 ∷ g2 ∷ g3 ∷ [];
        chaddr = take (min hl 16) ch;
        options = opts;
      })
unmarshal-fields op ht hl ho x0 x1 x2 x3 e0 e1 f0 f1 c0 c1 c2 c3 y0 y1 y2 y3 s0 s1 s2 s3 g0 g1 g2 g3
      ch rest opts len parsed =
    let tail : Bytes = replicate 192 0 ++ (be32 magic_cookie ++ rest) in
    let b : Bytes =
      op
      ∷ ht
      ∷ hl
      ∷ ho
      ∷ x0
      ∷ x1
      ∷ x2
      ∷ x3
      ∷ e0
      ∷ e1
      ∷ f0
      ∷ f1
      ∷ c0
      ∷ c1
      ∷ c2
      ∷ c3
      ∷ y0
      ∷ y1
      ∷ y2
      ∷ y3
      ∷ s0
      ∷ s1
      ∷ s2
      ∷ s3
      ∷ g0
      ∷ g1
      ∷ g2
      ∷ g3
      ∷ behind ch rest in
    unmarshal_lem b opts (ground (arith, length-append ch tail))
      (ap (take 4) (drop-behind ch rest 208 len (omega arith)))
      (ap parse_options (drop-behind ch rest 212 len (omega arith)) ∙ parsed)
    ∙ ap (λ t. packet (record (header_of b opts) { chaddr = t }))
        (take-append_le (min hl 16) ch tail (omega arith))

be32_lem :
    (v : ℕ)
    → v < 4294967296
    → from_be32 (u8 (v / 16777216)) (u8 (v / 65536)) (u8 (v / 256)) (u8 v) ≡ v
be32_lem v h = omega arith

be16_lem : (v : ℕ) → v < 65536 → from_be16 (u8 (v / 256)) (u8 v) ≡ v
be16_lem v h = omega arith

-- Unmarshal of what Marshal wrote is the packet: every number as it was, each address as its four
-- bytes (0.0.0.0 where it has none), the first hlen bytes of chaddr up to 16, and the options but
-- Pad and End. The packet's numbers must fit their fields, and no option be longer than 255 bytes.
pub unmarshal-marshal : (p : Packet) → IsWire p → unmarshal (marshal p) ≡ packet (normal p)
unfolding marshal
unmarshal-marshal p w =
    let (c0, c1, c2, c3, ec) = four_bytes (ip_to4 p.ciaddr) (length-ip_to4 p.ciaddr) in
    let (y0, y1, y2, y3, ey) = four_bytes (ip_to4 p.yiaddr) (length-ip_to4 p.yiaddr) in
    let (s0, s1, s2, s3, es) = four_bytes (ip_to4 p.siaddr) (length-ip_to4 p.siaddr) in
    let (g0, g1, g2, g3, eg) = four_bytes (ip_to4 p.giaddr) (length-ip_to4 p.giaddr) in
    rw (ec, ey, es, eg)
      (unmarshal-fields p.op p.htype p.hlen p.hops (u8 (p.xid / 16777216)) (u8 (p.xid / 65536))
          (u8 (p.xid / 256)) (u8 p.xid) (u8 (p.secs / 256)) (u8 p.secs) (u8 (p.flags / 256))
          (u8 p.flags) c0 c1 c2 c3 y0 y1 y2 y3 s0 s1 s2 s3 g0 g1 g2 g3 (copy_into 16 p.chaddr)
          (marshal_options p.options ++ opt_end ∷ []) (without_markers p.options)
          (length-copy_into 16 p.chaddr) (parse_options-marshal_options p.options [] w.options_fit)
        ∙ rw
            (be32_lem p.xid w.xid_fits, be16_lem p.secs w.secs_fits, be16_lem p.flags w.flags_fits))
