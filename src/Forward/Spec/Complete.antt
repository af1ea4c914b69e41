-- ===== src/Forward/Spec/Complete.antt =====
-- What ParseFlag (pkg/container/forward/spec.go) promises of a mapping that it accepts.
use mathlib.Core.Path.{subst}
use sandal.Prelude.{
  ◌≡◌, ◌≢◌, refl, sym, ap, ◌∙◌, ◌++◌, append_assoc, append-nil, ◌⊎◌, inl, inr, true, false, some,
  List, [], ◌∷◌, Option-cases, All,
}
use sandal.Prelude.Words.{Bytes}
use sandal.Prelude.Text.{codes, cut_prefix}
use sandal.Forward.Go.Parts.{IsPart, IsPart-refl, IsPart-nil, IsPart-trans, cut_prefix-IsPart}
use sandal.Forward.Spec.Split.{IsSplit-text, split_host_cont-IsSplit}
use sandal.Forward.Spec.{
  EndpointKind, net_endpoint, container_required, localhost, net, unix, Endpoint, PortMapping,
  Result, ok, err, parse_endpoint, split_host_cont, cut_scheme, schemes, tcp_udp, default_cont,
  explicit_cont, container, mapping, parse_flag,
}
use sandal.Forward.Spec.Ready.{
  AllOk, AllOk-bind, IsParsed, IsParsed-trans, parse_endpoint-IsParsed, IsReady, IsProto,
  with_ip-IsReady, with_proto-HasProto, with_proto-IsReady,
}

-- The name that a scheme prefix gives is one of the list's.
cut_scheme-name :
    (P : Bytes → Type 0) (l : List (Bytes × Bytes)) (s name rest : Bytes)
    → All (λ (x : Bytes × Bytes). P x.1) l
    → cut_scheme l s ≡ some (name, rest)
    → P name
unfolding cut_scheme
cut_scheme-name P [] s name rest h e = cc
cut_scheme-name P ((prefix, known) ∷ more) s name rest h e =
    elim (Option-cases (cut_prefix s prefix)) [
      | inl n ↦ cut_scheme-name P more s name rest h.1 (rw (n, cut_scheme) at e)
      | inr (r, y) ↦ let same : known ≡ name = cc (rw (y, cut_scheme) at e) in rw (← same) h.0
    ]

cut_scheme-IsPart :
    (l : List (Bytes × Bytes)) (s name rest : Bytes)
    → cut_scheme l s ≡ some (name, rest)
    → IsPart rest s
unfolding cut_scheme
cut_scheme-IsPart [] s name rest e = absurd (cc)
cut_scheme-IsPart ((prefix, known) ∷ more) s name rest e =
    elim (Option-cases (cut_prefix s prefix)) [
      | inl n ↦ cut_scheme-IsPart more s name rest (rw (n, cut_scheme) at e)
      | inr (r, y) ↦
          (let same : r ≡ rest = cc (rw (y, cut_scheme) at e) in
            rw (← same) (cut_prefix-IsPart s prefix r y))
    ]

-- A container endpoint before its protocol is filled in.
abbrev ContReady : Bytes → Endpoint → Type 0
ContReady raw e = IsReady raw e × (e.proto ≢ [] → IsProto e.proto)

explicit_cont-ContReady :
    (raw s proto : Bytes)
    → IsPart s raw
    → (proto ≢ [] → IsProto proto)
    → AllOk (ContReady raw) (explicit_cont s proto)
unfolding explicit_cont
explicit_cont-ContReady raw s proto h p =
    AllOk-bind (IsParsed s) (ContReady raw) (parse_endpoint s false) _
      (parse_endpoint-IsParsed s false)
      (λ e q.
        let r = with_ip-IsReady raw e (IsParsed-trans s raw e h q) in
        (
          record {
            net_ip = r.net_ip;
            net_text = r.net_text;
            net_port = r.net_port;
            unix_text = r.unix_text;
            unix_path = r.unix_path;
          },
          p,
        ))

default_cont-ContReady :
    (raw : Bytes) (host : Endpoint) → IsParsed raw host → AllOk (ContReady raw) (default_cont host)
unfolding default_cont
default_cont-ContReady raw host h = of host.kind refl
  where
    of :
        (k : EndpointKind)
        → host.kind ≡ k
        → AllOk
            (ContReady raw)
            (elim k [ unix ↦ err container_required | net ↦ ok (net_endpoint localhost host.port) ])
    of unix e = tt
    of net e = (
      record {
        net_ip = λ k q. cc;
        net_text = λ k. inl refl;
        net_port = λ k. h.net_port e;
        unix_text = λ k. absurd (cc);
        unix_path = λ k. cc;
      },
      λ z. absurd (z refl),
    )

container-ContReady :
    (raw s : Bytes) (host : Endpoint)
    → IsParsed raw host
    → IsPart s raw
    → AllOk (ContReady raw) (container s host)
unfolding container
container-ContReady raw [] host p h = default_cont-ContReady raw host p
container-ContReady raw (c ∷ cs) host p h = elim (Option-cases (cut_scheme tcp_udp (c ∷ cs))) [
  | inl e ↦ rw (e, container) (explicit_cont-ContReady raw (c ∷ cs) [] h (λ ne. absurd (ne refl)))
  | inr ((name, rest), e) ↦
      rw (e, container)
        (explicit_cont-ContReady raw rest name
          (IsPart-trans rest (c ∷ cs) raw (cut_scheme-IsPart tcp_udp (c ∷ cs) name rest e) h)
          (λ _. cut_scheme-name IsProto tcp_udp (c ∷ cs) name rest (inl refl, (inr refl, tt)) e))
]

abbrev IsScheme : Bytes → Type 0
IsScheme s = (s ≡ codes "tcp") ⊎ ((s ≡ codes "udp") ⊎ (s ≡ codes "tls"))

-- A mapping with its defaults filled in.
pub record IsFilled (raw : Bytes) (p : PortMapping) : Type 0 where
  pub raw_kept : p.raw ≡ raw
  pub scheme_known : IsScheme p.scheme
  pub host_ready : IsReady raw p.host
  pub cont_ready : IsReady raw p.cont
  pub cont_proto : p.cont.kind ≡ net → IsProto p.cont.proto

-- The parts of splitHostCont are pieces of the flag.
cut-IsPart : (s a b : Bytes) → s ≡ a ++ (b':' ∷ b) → IsPart a s × IsPart b s
cut-IsPart s a b e = (
  ([], b':' ∷ b, e),
  (
    a ++ (b':' ∷ []),
    [],
    e
        ∙ (ap (λ x. a ++ (b':' ∷ x)) (sym (append-nil b))
            ∙ sym (append_assoc a (b':' ∷ []) (b ++ []))),
  ),
)

split_host_cont-IsPart :
    (s : Bytes)
    → AllOk (λ (parts : Bytes × Bytes). IsPart parts.0 s × IsPart parts.1 s) (split_host_cont s)
split_host_cont-IsPart s = of (split_host_cont s) refl
  where
    of :
        (r : Result (Bytes × Bytes))
        → split_host_cont s ≡ r
        → AllOk (λ (parts : Bytes × Bytes). IsPart parts.0 s × IsPart parts.1 s) r
    of (err x) e = tt
    of (ok (a, b)) e = elim (IsSplit-text s (a, b) (split_host_cont-IsSplit s a b e)) [
      | inl q ↦ cut-IsPart s a b q
      | inr (q, n) ↦ (
        subst (λ x. IsPart x s) (sym q) (IsPart-refl s),
        subst (λ x. IsPart x s) (sym n) (IsPart-nil s),
      )
    ]

mapping-IsFilled :
    (raw scheme s : Bytes)
    → IsScheme scheme
    → IsPart s raw
    → AllOk (IsFilled raw) (mapping raw scheme s)
unfolding mapping
mapping-IsFilled raw scheme s known h =
    AllOk-bind (λ (parts : Bytes × Bytes). IsPart parts.0 s × IsPart parts.1 s) (IsFilled raw)
      (split_host_cont s) _ (split_host_cont-IsPart s)
      (λ parts q.
        AllOk-bind (IsParsed parts.0) (IsFilled raw) (parse_endpoint parts.0 true) _
          (parse_endpoint-IsParsed parts.0 true)
          (λ host k.
            let placed : IsParsed raw host =
              IsParsed-trans parts.0 raw host (IsPart-trans parts.0 s raw q.0 h) k in
            AllOk-bind (ContReady raw) (IsFilled raw) (container parts.1 host) _
              (container-ContReady raw parts.1 host placed (IsPart-trans parts.1 s raw q.1 h))
              (λ cont c. record {
                raw_kept = refl;
                scheme_known = known;
                host_ready = with_ip-IsReady raw host placed;
                cont_ready = with_proto-IsReady raw scheme cont c.0;
                cont_proto = with_proto-HasProto scheme cont c.1;
              })))

parse_flag-AllOk : (raw : Bytes) → AllOk (IsFilled raw) (parse_flag raw)
unfolding parse_flag
parse_flag-AllOk raw = elim (Option-cases (cut_scheme schemes raw)) [
  | inl e ↦ rw (e, parse_flag) (mapping-IsFilled raw (codes "tcp") raw (inl refl) (IsPart-refl raw))
  | inr ((scheme, s), e) ↦
      rw (e, parse_flag)
        (mapping-IsFilled raw scheme s
          (cut_scheme-name IsScheme schemes raw scheme s
            (inl refl, (inr (inl refl), (inr (inr refl), tt))) e)
          (cut_scheme-IsPart schemes raw scheme s e))
]

-- What ParseFlag accepts it gives with the defaults filled in: the scheme is one of tcp, udp and tls;
-- a net endpoint has an address that is the flag's or 127.0.0.1, and for its port the value of a
-- number that stands in the flag, of whatever size and sign; a unix endpoint has an absolute path
-- that stands in the flag; and a container endpoint on the network has tcp or udp for its protocol.
pub parse_flag-IsFilled : (raw : Bytes) (p : PortMapping) → parse_flag raw ≡ ok p → IsFilled raw p
parse_flag-IsFilled raw p e = rw e at (parse_flag-AllOk raw)
