-- ===== src/Tests/RegistryRuns.antt =====
-- Runs of pkg/lib/container/registry/reference.go.
use sandal.Prelude.{◌≡◌, refl, inl, [], arith}
use sandal.Prelude.Text.{codes, equal, index_byte, last_index_byte}
use sandal.Registry.{
  Reference, parsed, empty_repository, ref, to_string, split_registry, split_tag, normalize,
  without_digest, parse_reference, hub,
}
use sandal.Registry.Nameless.{parse_reference-nameless}
use sandal.Registry.RoundTrip.{IsCanonical, parse_reference-to_string}

abbrev alpine : Reference
alpine = record {
  registry = codes "registry-1.docker.io";
  repository = codes "library/alpine";
  tag = codes "latest";
  digest = [];
}

alpine_parsed : parse_reference (codes "alpine") ≡ parsed alpine
unfolding parse_reference without_digest split_registry split_tag normalize index_byte
    last_index_byte equal
alpine_parsed = refl

-- A small reference, of a registry with a port.
abbrev small : Reference
small = record { registry = codes "a:5"; repository = codes "r"; tag = codes "t"; digest = [] }

small-IsCanonical : IsCanonical small
unfolding equal
small-IsCanonical = record {
  host = (refl, refl, (λ e. omega arith, (λ e. omega arith, (λ e. omega arith, tt))));
  host_plain = (λ e. omega arith, (λ e. omega arith, (λ e. omega arith, tt)));
  named = refl;
  name_plain = (λ e. omega arith, tt);
  pointed =
      inl (refl, refl, (λ e. omega arith, tt), (λ e. omega arith, tt), (λ e. omega arith, tt));
}

parse_reference-to_string_example : parse_reference (to_string small) ≡ parsed small
parse_reference-to_string_example = parse_reference-to_string small small-IsCanonical

-- A digest wins over the tag, which stays in the repository; an empty text names a repository.
runs :
    (parse_reference (codes "ghcr.io/o/r:1@sha256:ab")
      ≡ parsed (record {
        registry = codes "ghcr.io";
        repository = codes "o/r:1";
        tag = [];
        digest = codes "sha256:ab";
      }))
    × (parse_reference []
        ≡ parsed (record {
          registry = codes "registry-1.docker.io";
          repository = codes "library/";
          tag = codes "latest";
          digest = [];
        }))
    × (parse_reference (codes "localhost/:1")
        ≡ empty_repository (record {
          registry = codes "localhost";
          repository = [];
          tag = codes "1";
          digest = [];
        }))
    × (to_string alpine ≡ codes "registry-1.docker.io/library/alpine:latest")
    × (ref alpine ≡ codes "latest")
unfolding parse_reference without_digest split_registry split_tag normalize index_byte
    last_index_byte equal to_string ref
runs = (refl, refl, refl, refl, refl)

parse_reference-nameless_example :
    parse_reference (codes ":v1")
    ≡ parsed
        (record { registry = hub; repository = codes "library/"; tag = codes "v1"; digest = [] })
unfolding index_byte
parse_reference-nameless_example = parse_reference-nameless (codes "v1") refl refl refl
