-- ===== src/Dhcp6/Client.antt =====
-- The DHCPv6 client: what client6.go and client6_pd.go of pkg/lib/dhcp write and read, and the
-- exchange of retransmit6.go. The sockets and timers are events; errors carry no text.
use sandal.Prelude.{ℕ, ◌*◌, Option, none, some, List, [], ◌∷◌, ◌++◌, ◌==◌, if◌then◌else◌, replicate}
use sandal.Prelude.Words.{Bytes}
use sandal.Dhcp6.Options.{
  Options6, get6, server_id6, ia_na, ia_pd, Association, addresses, prefixes, IaAddr, IaPrefix,
  status_code, dns6, opt6_ia_na, opt6_ia_pd, opt6_dns_servers, option6_client_id, option6_server_id,
  option6_ia_na, option6_ia_pd, option6_ia_addr, option6_ia_prefix, option6_oro,
  option6_elapsed_time,
}
use sandal.Dhcp6.Packet.{Packet6}

-- Lease6; the times are in nanoseconds.
pub record Lease6 : Type 0 where
  pub client_ip : Bytes
  pub preferred_lifetime : ℕ
  pub valid_lifetime : ℕ
  pub dns : List Bytes
  pub server_duid : Option Bytes
  pub t1 : ℕ
  pub t2 : ℕ

-- PDLease; the prefix is its address and its length, of which a length over 128 gives no mask.
pub record PdLease : Type 0 where
  pub prefix : Bytes
  pub prefix_length : ℕ
  pub preferred_lifetime : ℕ
  pub valid_lifetime : ℕ
  pub server_duid : Option Bytes
  pub t1 : ℕ
  pub t2 : ℕ

pub data LeaseError : Type 0 where
  no_association nothing_offered : LeaseError
  refused : ℕ → Bytes → LeaseError

pub data Leased {ℓ} (A : Type ℓ) : Type ℓ where
  lease : A → Leased A
  no_lease : LeaseError → Leased A

abbrev pub seconds : ℕ → ℕ
seconds n = n * 1_000_000_000

-- The error of an association that offers nothing: the server's status, where it gives one.
abbrev why : ℕ × Bytes → LeaseError
why (code, msg) = if code == 0 then nothing_offered else refused code msg

unfoldable pub lease_of : Options6 → Association → List IaAddr → Leased Lease6
lease_of opts ia [] = no_lease (why (status_code ia.options))
lease_of opts ia (a ∷ _) = lease (record {
  client_ip = a.ip;
  preferred_lifetime = seconds a.preferred_lifetime;
  valid_lifetime = seconds a.valid_lifetime;
  dns = dns6 opts;
  server_duid = server_id6 opts;
  t1 = seconds ia.t1;
  t2 = seconds ia.t2;
})

unfoldable pub lease_from : Options6 → Option Association → Leased Lease6
unfolding lease_of
lease_from opts none = no_lease no_association
lease_from opts (some ia) = lease_of opts ia (addresses ia.options)

-- toLease6
unfoldable pub to_lease6 : Packet6 → Leased Lease6
unfolding lease_from
to_lease6 p = lease_from p.options (ia_na p.options)

unfoldable pub pd_lease_of : Options6 → Association → List IaPrefix → Leased PdLease
pd_lease_of opts ia [] = no_lease (why (status_code ia.options))
pd_lease_of opts ia (p ∷ _) = lease (record {
  prefix = p.prefix;
  prefix_length = p.prefix_length;
  preferred_lifetime = seconds p.preferred_lifetime;
  valid_lifetime = seconds p.valid_lifetime;
  server_duid = server_id6 opts;
  t1 = seconds ia.t1;
  t2 = seconds ia.t2;
})

unfoldable pub pd_lease_from : Options6 → Option Association → Leased PdLease
unfolding pd_lease_of
pd_lease_from opts none = no_lease no_association
pd_lease_from opts (some ia) = pd_lease_of opts ia (prefixes ia.options)

-- toPDLease
unfoldable pub to_pd_lease : Packet6 → Leased PdLease
unfolding pd_lease_from
to_pd_lease p = pd_lease_from p.options (ia_pd p.options)

-- The transaction ID of a packet.
pub record TxId : Type 0 where
  pub a : ℕ
  pub b : ℕ
  pub c : ℕ

abbrev pub message : ℕ → TxId → Options6 → Packet6
message t id opts = record { msg_type = t; id0 = id.a; id1 = id.b; id2 = id.c; options = opts }

abbrev new_association : Options6 → Association
new_association opts = record { iaid = 1; t1 = 0; t2 = 0; options = opts }

-- newSolicit
unfoldable pub new_solicit : Bytes → TxId → Packet6
new_solicit duid id = message 1 id (
    option6_client_id duid
    ∷ option6_elapsed_time 0
    ∷ option6_ia_na (new_association [])
    ∷ option6_oro (opt6_dns_servers ∷ [])
    ∷ [])

abbrev copied : ℕ → Option Bytes → Options6
copied code none = []
copied code (some d) = record { code = code; payload = d } ∷ []

abbrev server_copied : Option Bytes → Options6
server_copied none = []
server_copied (some d) = option6_server_id d ∷ []

-- newRequest
unfoldable pub new_request : Bytes → TxId → Packet6 → Packet6
new_request duid id adv = message 3 id (
    (option6_client_id duid ∷ option6_elapsed_time 0 ∷ option6_oro (opt6_dns_servers ∷ []) ∷ [])
    ++ (server_copied (server_id6 adv.options) ++ copied opt6_ia_na (get6 adv.options opt6_ia_na)))

-- A nil DUID is written like an empty one.
abbrev duid_of : Option Bytes → Bytes
duid_of none = []
duid_of (some d) = d

-- The packet of RenewLease.
unfoldable pub renew_packet : Bytes → TxId → Lease6 → Packet6
renew_packet duid id l = message 5 id (
    option6_client_id duid
    ∷ option6_server_id (duid_of l.server_duid)
    ∷ option6_elapsed_time 0
    ∷ option6_ia_na (new_association (option6_ia_addr l.client_ip 0 0 ∷ []))
    ∷ option6_oro (opt6_dns_servers ∷ [])
    ∷ [])

-- The packet of ReleaseLease.
unfoldable pub release_packet : Bytes → TxId → Lease6 → Packet6
release_packet duid id l = message 8 id (
    option6_client_id duid
    ∷ option6_server_id (duid_of l.server_duid)
    ∷ option6_ia_na (new_association (option6_ia_addr l.client_ip 0 0 ∷ []))
    ∷ [])

-- newPDSolicit; a hint that is nil is one of length 0.
abbrev hinted : ℕ → Options6
hinted n =
    if n == 0
    then []
    else option6_ia_prefix (record {
      preferred_lifetime = 0;
      valid_lifetime = 0;
      prefix_length = n;
      prefix = replicate 16 0;
      options = [];
    })
      ∷ []

unfoldable pub new_pd_solicit : Bytes → TxId → ℕ → Packet6
new_pd_solicit duid id hint = message 1 id (
    option6_client_id duid
    ∷ option6_elapsed_time 0
    ∷ option6_ia_pd (new_association (hinted hint))
    ∷ option6_oro (opt6_dns_servers ∷ [])
    ∷ [])

-- newPDRequest
unfoldable pub new_pd_request : Bytes → TxId → Packet6 → Packet6
new_pd_request duid id adv = message 3 id (
    (option6_client_id duid ∷ option6_elapsed_time 0 ∷ [])
    ++ (server_copied (server_id6 adv.options) ++ copied opt6_ia_pd (get6 adv.options opt6_ia_pd)))
