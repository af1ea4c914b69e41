-- ===== src/Forward/Spec.antt =====
-- The -p flag: pkg/container/forward/spec.go. An error carries no text, and a failed ParseFlag gives
-- no mapping (its caller drops the one that the code returns beside the error).
pub mod Cuts
pub mod Split
pub mod Ready
pub mod Complete
use sandal.Prelude.{
  ℕ, suc, ◌+◌, Bool, true, false, not, ◌&&◌, ◌||◌, Option, none, some, List, [], ◌∷◌, ◌++◌, ◌==◌,
  if◌then◌else◌, take, drop, length, ltb,
}
use sandal.Prelude.Words.{Bytes}
use sandal.Prelude.Text.{codes, equal, has_prefix, cut_prefix, index, last_index_byte}
use sandal.Forward.Go.{ℤ, pos, atoi, is_digit, split_colon, split_host_port}

pub data EndpointKind : Type 0 where
  net unix : EndpointKind

pub record Endpoint : Type 0 where
  pub kind : EndpointKind
  pub ip : Bytes
  pub port : ℤ
  pub path : Bytes
  pub proto : Bytes

-- `id` is given by the caller, and `scheme` is a string in the code too.
pub record PortMapping : Type 0 where
  pub raw : Bytes
  pub scheme : Bytes
  pub host : Endpoint
  pub cont : Endpoint

pub data ParseError : Type 0 where
  empty_mapping too_many_colons unix_not_absolute bad_address bad_port : ParseError
  container_required tls_without_port empty_scheme : ParseError

pub data Result {ℓ} (A : Type ℓ) : Type ℓ where
  ok : A → Result A
  err : ParseError → Result A

infixl 5 ◌>>=◌
abbrev pub ◌>>=◌ {ℓ κ} : {A : Type ℓ} {B : Type κ} → Result A → (A → Result B) → Result B
ok a >>= f = f a
err e >>= f = err e

abbrev pub net_endpoint : Bytes → ℤ → Endpoint
net_endpoint ip port = record { kind = net; ip = ip; port = port; path = []; proto = [] }

abbrev unix_endpoint : Bytes → Endpoint
unix_endpoint path = record { kind = unix; ip = []; port = pos 0; path = path; proto = [] }

absolute : Bytes → Result Endpoint
absolute [] = err unix_not_absolute
absolute (c ∷ cs) = if c == b'/' then ok (unix_endpoint (c ∷ cs)) else err unix_not_absolute

with_port : Bytes → Option ℤ → Result Endpoint
with_port host none = err bad_port
with_port host (some p) = ok (net_endpoint host p)

-- net.SplitHostPort, and a bare port where that fails.
address : Bytes → Option (Bytes × Bytes) → Result Endpoint
unfolding with_port
address s (some (host, port)) = with_port host (atoi port)
address s none = elim (atoi s) [ none ↦ err bad_address | some p ↦ ok (net_endpoint [] p) ]

port_or_address : Bool → Bytes → Option ℤ → Result Endpoint
unfolding address
port_or_address true s (some p) = ok (net_endpoint [] p)
port_or_address _ s _ = address s (split_host_port s)

-- parseEndpoint
unfoldable pub parse_endpoint : Bytes → Bool → Result Endpoint
unfolding absolute port_or_address
parse_endpoint s allow_port_only = elim (cut_prefix s (codes "unix://")) [
  | some path ↦ absolute path
  | none ↦ port_or_address allow_port_only s (atoi s)
]

-- The first of two places, as `best` is kept in the loops over the markers.
unfoldable pub earlier : Option ℕ → Option ℕ → Option ℕ
earlier none j = j
earlier (some i) none = some i
earlier (some i) (some j) = if ltb j i then some j else some i

-- The place of a trailing `:<digits>`. With nothing behind the last colon there is none.
all_digits : Bytes → Bool
all_digits [] = true
all_digits (c ∷ cs) = is_digit c && all_digits cs

pub trailing_port : Bytes → Option ℕ
unfolding all_digits
trailing_port s = elim (last_index_byte s b':') [
  | none ↦ none
  | some i ↦ if ltb (suc i) (length s) && all_digits (drop (suc i) s) then some i else none
]

pub cut_at : Bytes → Option ℕ → Bytes × Bytes
cut_at s none = (s, [])
cut_at s (some i) = (take i s, drop (suc i) s)

-- splitAfterUnix
unfoldable pub split_after_unix : Bytes → Bytes × Bytes
unfolding earlier trailing_port cut_at
split_after_unix s = cut_at s (
    earlier
      (earlier
        (earlier (earlier (index s (codes ":tcp://")) (index s (codes ":udp://")))
          (index s (codes ":tls://")))
        (index s (codes ":unix://")))
      (trailing_port s))

-- The switch on the number of colon-separated parts.
pub split_numeric : Bytes → List Bytes → Result (Bytes × Bytes)
split_numeric s (a ∷ []) = ok (a, [])
split_numeric s (a ∷ b ∷ []) = elim (atoi a) [ some _ ↦ ok (a, b) | none ↦ ok (s, []) ]
split_numeric s (a ∷ b ∷ c ∷ []) = ok (a ++ (b':' ∷ b), c)
split_numeric s _ = err too_many_colons

split_net : Bytes → Option ℕ → Result (Bytes × Bytes)
split_net s (some i) = ok (take i s, drop (suc i) s)
split_net s none = split_numeric s (split_colon s)

abbrev pub container_marker : Bytes → Option ℕ
container_marker s =
    earlier (earlier (index s (codes ":unix://")) (index s (codes ":tcp://")))
      (index s (codes ":udp://"))

-- splitHostCont
unfoldable pub split_host_cont : Bytes → Result (Bytes × Bytes)
unfolding split_net split_numeric
split_host_cont [] = err empty_mapping
split_host_cont (c ∷ cs) =
    if has_prefix (c ∷ cs) (codes "unix://")
    then ok (split_after_unix (c ∷ cs))
    else split_net (c ∷ cs) (container_marker (c ∷ cs))

-- The first of the prefixes that the string has, with its name, and the rest.
pub cut_scheme : List (Bytes × Bytes) → Bytes → Option (Bytes × Bytes)
cut_scheme [] s = none
cut_scheme ((prefix, name) ∷ more) s = elim (cut_prefix s prefix) [
  | some rest ↦ some (name, rest)
  | none ↦ cut_scheme more s
]

abbrev pub tcp_udp : List (Bytes × Bytes)
tcp_udp = (codes "tcp://", codes "tcp") ∷ (codes "udp://", codes "udp") ∷ []

abbrev pub schemes : List (Bytes × Bytes)
schemes =
    (codes "tcp://", codes "tcp")
    ∷ (codes "udp://", codes "udp")
    ∷ (codes "tls://", codes "tls")
    ∷ []

abbrev pub localhost : Bytes
localhost = codes "127.0.0.1"

-- `if e.Kind == KindNet && e.IP == "" { e.IP = "127.0.0.1" }`
pub with_ip : Endpoint → Endpoint
with_ip e = elim e.kind [
  | unix ↦ e
  | net ↦ if equal e.ip [] then record e { ip = localhost } else e
]

-- Proto of a container endpoint that names none: that of the scheme.
pub with_proto : Bytes → Endpoint → Endpoint
with_proto scheme e = elim e.kind [
  | unix ↦ e
  | net ↦
      if equal e.proto []
      then record e { proto = (if equal scheme (codes "udp") then codes "udp" else codes "tcp") }
      else e
]

-- The container endpoint: the host's port on the loopback address, or what the flag says, without
-- and with a protocol of its own.
default_cont : Endpoint → Result Endpoint
default_cont host = elim host.kind [
  | unix ↦ err container_required
  | net ↦ ok (net_endpoint localhost host.port)
]

explicit_cont : Bytes → Bytes → Result Endpoint
unfolding with_ip
explicit_cont s proto = do e ← parse_endpoint s false; ok (record (with_ip e) { proto = proto })

container : Bytes → Endpoint → Result Endpoint
unfolding default_cont explicit_cont cut_scheme
container [] host = default_cont host
container (c ∷ cs) host = elim (cut_scheme tcp_udp (c ∷ cs)) [
  | none ↦ explicit_cont (c ∷ cs) []
  | some (name, rest) ↦ explicit_cont rest name
]

mapping : Bytes → Bytes → Bytes → Result PortMapping
unfolding container with_proto with_ip
mapping raw scheme s = do
  parts ← split_host_cont s
  host ← parse_endpoint parts.0 true
  cont ← container parts.1 host
  ok (record { raw = raw; scheme = scheme; host = with_ip host; cont = with_proto scheme cont })

-- ParseFlag
unfoldable pub parse_flag : Bytes → Result PortMapping
unfolding mapping cut_scheme
parse_flag raw = elim (cut_scheme schemes raw) [
  | none ↦ mapping raw (codes "tcp") raw
  | some (scheme, s) ↦ mapping raw scheme s
]

is_zero : ℤ → Bool
is_zero (pos n) = n == 0
is_zero _ = false

is_net : EndpointKind → Bool
is_net net = true
is_net unix = false

-- PortMapping.Validate
unfoldable pub validate : PortMapping → Option ParseError
unfolding is_zero is_net
validate p =
    if equal p.scheme (codes "tls") && is_net p.host.kind && is_zero p.host.port
    then some tls_without_port
    else if equal p.scheme []
    then some empty_scheme
    else none
