-- ===== src/Tests/ForwardRuns.antt =====
-- pkg/container/forward/spec.go on flags that its tests and documents use.
use sandal.Prelude.{◌≡◌, refl, false, some, none, arith}
use sandal.Prelude.Words.{Bytes}
use sandal.Prelude.Text.{codes, equal, has_prefix, cut_prefix, index}
use sandal.Forward.Go.{pos, negsuc, atoi, split_host_port}
use sandal.Forward.Spec.{
  PortMapping, net_endpoint, ok, err, too_many_colons, earlier, split_host_cont, split_after_unix,
  parse_endpoint, parse_flag, validate, tls_without_port, container_marker,
}
use sandal.Forward.Spec.Split.{split_host_cont-colons}
use sandal.Forward.Spec.Complete.{IsFilled, parse_flag-IsFilled}

numbers :
    (atoi (codes "-12") ≡ some (negsuc 11))
    × (atoi (codes "+7") ≡ some (pos 7))
    × (atoi (codes "7x") ≡ none)
    × (atoi (codes "9223372036854775808") ≡ none)
    × (split_host_port (codes "[::1]:80") ≡ some (codes "::1", codes "80"))
    × (split_host_port (codes "::1:80") ≡ none)
unfolding atoi split_host_port
numbers = (refl, refl, refl, refl, refl, refl)

abbrev flag : Bytes
flag = codes "udp://0.0.0.0:53:tcp://53"

abbrev cross : PortMapping
cross = record {
  raw = flag;
  scheme = codes "udp";
  host = net_endpoint (codes "0.0.0.0") (pos 53);
  cont = record (net_endpoint (codes "127.0.0.1") (pos 53)) { proto = codes "tcp" };
}

parses_cross : parse_flag flag ≡ ok cross
unfolding parse_flag parse_endpoint split_host_cont split_after_unix cut_prefix index has_prefix
    atoi split_host_port equal earlier
parses_cross = refl

validates :
    (validate cross ≡ none)
    × (validate
          (record cross { scheme = codes "tls"; host = net_endpoint (codes "0.0.0.0") (pos 0) })
        ≡ some tls_without_port)
unfolding validate equal
validates = (refl, refl)

parse_flag-IsFilled_example : IsFilled flag cross
parse_flag-IsFilled_example = parse_flag-IsFilled flag cross parses_cross

plain_v6 :
    (has_prefix (codes "[::1]:80") (codes "unix://") ≡ false)
    × (container_marker (codes "[::1]:80") ≡ none)
unfolding has_prefix index earlier
plain_v6 = (refl, refl)

split_host_cont-colons_example : split_host_cont (codes "[::1]:80") ≡ err too_many_colons
split_host_cont-colons_example =
    split_host_cont-colons (codes "[::1]:80") plain_v6.0 plain_v6.1 (omega arith)
