-- ===== src/Forward/Spec/Ready.antt =====
-- The endpoints that parseEndpoint and ParseFlag (pkg/container/forward/spec.go) give: their texts.
use mathlib.Core.Path.{subst}
use sandal.Prelude.{
  ◌≡◌, ◌≢◌, refl, sym, ap, ◌∙◌, ◌⊎◌, inl, inr, Bool, true, false, Option, none, some, [], ◌∷◌,
  arith, ◌==◌, Bool-cases, Option-cases,
}
use sandal.Prelude.Words.{Bytes}
use sandal.Prelude.Text.{codes, equal_iff, cut_prefix}
use sandal.Forward.Go.{ℤ, atoi, split_host_port}
use sandal.Forward.Go.Parts.{
  IsPart, IsPart-refl, IsPart-nil, IsPart-trans, cut_prefix-IsPart, split_host_port-IsPart,
}
use sandal.Forward.Spec.{
  net_endpoint, net, unix, Endpoint, Result, ok, err, ◌>>=◌, absolute, with_port, address,
  port_or_address, parse_endpoint, with_ip, with_proto,
}

abbrev is_absolute : Bytes → Bool
is_absolute [] = false
is_absolute (c ∷ cs) = c == b'/'

abbrev pub AllOk {ℓ} : {A : Type ℓ} → (A → Type 0) → Result A → Type 0
AllOk P (ok a) = P a
AllOk P (err e) = Unit

pub AllOk-bind {ℓ κ} :
    {A : Type ℓ} {B : Type κ} (P : A → Type 0) (Q : B → Type 0) (r : Result A) (f : A → Result B)
    → AllOk P r
    → ((a : A) → P a → AllOk Q (f a))
    → AllOk Q (r >>= f)
AllOk-bind P Q (ok a) f p k = k a p
AllOk-bind P Q (err e) f p k = tt

-- The port is the value of a number of the text.
abbrev PortIn : Bytes → ℤ → Type 0
PortIn s p = (t : Bytes) × IsPart t s × (atoi t ≡ some p)

PortIn-trans : (r s : Bytes) (p : ℤ) → IsPart r s → PortIn r p → PortIn s p
PortIn-trans r s p h (t, k, e) = (t, IsPart-trans t r s k h, e)

-- An endpoint as its text says: the address and the port of a net one, the path of a unix one.
pub record IsParsed (s : Bytes) (e : Endpoint) : Type 0 where
  pub net_text : e.kind ≡ net → IsPart e.ip s
  pub net_port : e.kind ≡ net → PortIn s e.port
  pub unix_text : e.kind ≡ unix → IsPart e.path s
  pub unix_path : e.kind ≡ unix → is_absolute e.path ≡ true

IsParsed-net : (s ip : Bytes) (p : ℤ) → IsPart ip s → PortIn s p → IsParsed s (net_endpoint ip p)
IsParsed-net s ip p h k = record {
  net_text = λ e. h;
  net_port = λ e. k;
  unix_text = λ e. absurd (cc);
  unix_path = λ e. cc;
}

pub IsParsed-trans : (r s : Bytes) (e : Endpoint) → IsPart r s → IsParsed r e → IsParsed s e
IsParsed-trans r s e h p = record {
  net_text = λ k. IsPart-trans e.ip r s (p.net_text k) h;
  net_port = λ k. PortIn-trans r s e.port h (p.net_port k);
  unix_text = λ k. IsPart-trans e.path r s (p.unix_text k) h;
  unix_path = p.unix_path;
}

absolute-IsParsed : (path : Bytes) → AllOk (IsParsed path) (absolute path)
unfolding absolute
absolute-IsParsed [] = tt
absolute-IsParsed (c ∷ cs) = elim (Bool-cases (c == b'/')) [
  | inl e ↦ rw e (record {
    net_text = λ k. absurd (cc);
    net_port = λ k. absurd (cc);
    unix_text = λ k. IsPart-refl (c ∷ cs);
    unix_path = λ k. e;
  })
  | inr e ↦ rw e tt
]

with_port-IsParsed :
    (s host port : Bytes)
    → IsPart host s
    → IsPart port s
    → AllOk (IsParsed s) (with_port host (atoi port))
unfolding with_port
with_port-IsParsed s host port h k = elim (Option-cases (atoi port)) [
  | inl e ↦ rw (e, with_port) tt
  | inr (p, e) ↦ rw (e, with_port) (IsParsed-net s host p h (port, k, e))
]

bare_port-IsParsed : (s : Bytes) (p : ℤ) → atoi s ≡ some p → IsParsed s (net_endpoint [] p)
bare_port-IsParsed s p e = IsParsed-net s [] p (IsPart-nil s) (s, IsPart-refl s, e)

address-IsParsed : (s : Bytes) → AllOk (IsParsed s) (address s (split_host_port s))
unfolding address
address-IsParsed s = elim (Option-cases (split_host_port s)) [
  | inr ((host, port), q) ↦
      (let (h, k) = split_host_port-IsPart s host port q in
        rw (q, address) (with_port-IsParsed s host port h k))
  | inl q ↦ elim (Option-cases (atoi s)) [
    | inl e ↦ rw (q, e, address) tt
    | inr (p, e) ↦ rw (q, e, address) (bare_port-IsParsed s p e)
  ]
]

port_or_address-IsParsed :
    (b : Bool) (s : Bytes) (o : Option ℤ) → atoi s ≡ o → AllOk (IsParsed s) (port_or_address b s o)
unfolding port_or_address
port_or_address-IsParsed true s (some p) e = bare_port-IsParsed s p e
port_or_address-IsParsed true s none e = address-IsParsed s
port_or_address-IsParsed false s (some p) e = address-IsParsed s
port_or_address-IsParsed false s none e = address-IsParsed s

AllOk-map {ℓ} :
    {A : Type ℓ} (P Q : A → Type 0) (r : Result A) → ((a : A) → P a → Q a) → AllOk P r → AllOk Q r
AllOk-map P Q (ok a) f p = f a p
AllOk-map P Q (err e) f p = tt

pub parse_endpoint-IsParsed : (s : Bytes) (b : Bool) → AllOk (IsParsed s) (parse_endpoint s b)
unfolding parse_endpoint
parse_endpoint-IsParsed s b = elim (Option-cases (cut_prefix s (codes "unix://"))) [
  | inl e ↦ rw (e, parse_endpoint) (port_or_address-IsParsed b s (atoi s) refl)
  | inr (path, e) ↦
      rw (e, parse_endpoint)
        (AllOk-map (IsParsed path) (IsParsed s) (absolute path)
          (λ x p. IsParsed-trans path s x (cut_prefix-IsPart s (codes "unix://") path e) p)
          (absolute-IsParsed path))
]

-- An endpoint with its defaults: a net one has an address, the flag's or the loopback one, and a port
-- that the flag names; a unix one an absolute path that the flag names.
pub record IsReady (raw : Bytes) (e : Endpoint) : Type 0 where
  pub net_ip : e.kind ≡ net → e.ip ≢ []
  pub net_text : e.kind ≡ net → (e.ip ≡ codes "127.0.0.1") ⊎ IsPart e.ip raw
  pub net_port : e.kind ≡ net → PortIn raw e.port
  pub unix_text : e.kind ≡ unix → IsPart e.path raw
  pub unix_path : e.kind ≡ unix → is_absolute e.path ≡ true

abbrev pub IsProto : Bytes → Type 0
IsProto p = (p ≡ codes "tcp") ⊎ (p ≡ codes "udp")

with_ip-ip :
    (e : Endpoint)
    → e.kind ≡ net
    → ((with_ip e).ip ≢ []) × (((with_ip e).ip ≡ codes "127.0.0.1") ⊎ ((with_ip e).ip ≡ e.ip))
unfolding with_ip
with_ip-ip e k = ground (arith, k, equal_iff e.ip [])

with_ip-rest :
    (e : Endpoint)
    → ((with_ip e).kind ≡ e.kind) × ((with_ip e).port ≡ e.port) × ((with_ip e).path ≡ e.path)
unfolding with_ip
with_ip-rest e = ground arith

pub with_ip-IsReady : (raw : Bytes) (e : Endpoint) → IsParsed raw e → IsReady raw (with_ip e)
with_ip-IsReady raw e h =
    let (kind, port, path) = with_ip-rest e in
    record {
      net_ip = λ k. (with_ip-ip e (sym kind ∙ k)).0;
      net_text = λ k. elim (with_ip-ip e (sym kind ∙ k)).1 [
        | inl q ↦ inl q
        | inr q ↦ inr (subst (λ x. IsPart x raw) (sym q) (h.net_text (sym kind ∙ k)))
      ];
      net_port = λ k. subst (PortIn raw) (sym port) (h.net_port (sym kind ∙ k));
      unix_text = λ k. subst (λ x. IsPart x raw) (sym path) (h.unix_text (sym kind ∙ k));
      unix_path = λ k. ap is_absolute path ∙ h.unix_path (sym kind ∙ k);
    }

abbrev HasProto : Endpoint → Type 0
HasProto e = e.kind ≡ net → IsProto e.proto

with_proto-rest :
    (scheme : Bytes) (e : Endpoint)
    → ((with_proto scheme e).kind ≡ e.kind)
      × ((with_proto scheme e).ip ≡ e.ip)
      × ((with_proto scheme e).port ≡ e.port)
      × ((with_proto scheme e).path ≡ e.path)
unfolding with_proto
with_proto-rest scheme e = ground arith

pub with_proto-HasProto :
    (scheme : Bytes) (e : Endpoint)
    → (e.proto ≢ [] → IsProto e.proto)
    → HasProto (with_proto scheme e)
unfolding with_proto
with_proto-HasProto scheme e p = ground (arith, equal_iff e.proto [])

pub with_proto-IsReady :
    (raw scheme : Bytes) (e : Endpoint) → IsReady raw e → IsReady raw (with_proto scheme e)
with_proto-IsReady raw scheme e h =
    let (kind, ip, port, path) = with_proto-rest scheme e in
    record {
      net_ip = λ k z. h.net_ip (sym kind ∙ k) (sym ip ∙ z);
      net_text = λ k. elim (h.net_text (sym kind ∙ k)) [
        | inl q ↦ inl (ip ∙ q)
        | inr q ↦ inr (subst (λ x. IsPart x raw) (sym ip) q)
      ];
      net_port = λ k. subst (PortIn raw) (sym port) (h.net_port (sym kind ∙ k));
      unix_text = λ k. subst (λ x. IsPart x raw) (sym path) (h.unix_text (sym kind ∙ k));
      unix_path = λ k. ap is_absolute path ∙ h.unix_path (sym kind ∙ k);
    }
