-- ===== src/Gateway/Upnp.antt =====
-- upnp.go: the mappings of upnp_NAT and the cache of their external ports. The device and the client
-- library in front of it are an interface over the state of the device.
pub mod Ports
pub mod Service
pub mod Unicast
pub mod Multicast
pub mod Address
mod Examples
use go_nat.Base.{
  ℕ, zero, suc, ◌+◌, ◌%◌, ◌^◌, ◌≡◌, ◌↔◌, Bool, true, false, ◌&&◌, Option, some, none, String, List,
  [], ◌∷◌, str_eq, eq_iff, arith,
}
use go_nat.Base.Tests.{ltb, ◌==◌, if◌then◌else◌}
use go_nat.Base.Int.{ℤ, quot, wrap_to}
use go_nat.Base.Outcome.{
  Error, message, plain, sentinel, wrap, err_no_device_host, err_no_internal_address, Outcome, ok,
  err, panic, ◌>>=◌, with_prefix,
}
use go_nat.Base.Bytes.{Bytes}
use go_nat.Base.Assoc.{Eq, lookup, insert, delete}
use go_nat.Context.{Context}
use go_nat.Pcp.Client.State.{second}

-- randomPort, on the number below 65535 - 10000 that random.Intn draws.
unfoldable pub random_port : ℕ → ℕ
random_port draw = draw + 10000

-- upnp_NAT_Client, as far as mappings go: the remote host is empty and the mapping enabled in every
-- call. A mapping has an external port, a protocol, an internal port and the internal address.
pub record UpnpClient (D : Type 0) : Type 0 where
  pub add_port_mapping : Context → ℕ → String → ℕ → Bytes → String → ℕ → D → D × Outcome (Unit {0})
  pub delete_port_mapping : Context → ℕ → String → D → D × Outcome (Unit {0})

pub record UpnpMappingKey : Type 0 where
  pub protocol : String
  pub port : ℕ

abbrev pub same_key : UpnpMappingKey → UpnpMappingKey → Bool
same_key a b = str_eq a.protocol b.protocol && a.port == b.port

pub same_key_iff : (a b : UpnpMappingKey) → (same_key a b ≡ true) ↔ (a ≡ b)
same_key_iff a b = ground (arith, eq_iff a.protocol b.protocol)

instance abbrev pub upnp_key_eq : Eq UpnpMappingKey
upnp_key_eq = record { beq = same_key; beq_iff = same_key_iff }

-- The host and the port of URLBase, as url.URL reads them.
pub record UpnpNat (D : Type 0) : Type 0 where
  pub device : D
  pub typ : String
  pub host : String
  pub host_port : String
  pub ports : List (UpnpMappingKey × ℕ)

unfoldable pub map_protocol : String → Outcome String
map_protocol s =
    if str_eq s "udp"
    then ok "UDP"
    else if str_eq s "tcp"
    then ok "TCP"
    else err (message (plain "invalid protocol: %s"))

abbrev pub default_http_port : String
default_http_port = "80"

-- deviceHostPort; net.JoinHostPort writes the pair.
unfoldable pub device_host_port : String → String → Outcome (String × String)
device_host_port host port =
    if str_eq host ""
    then err (sentinel err_no_device_host)
    else ok (host, if str_eq port "" then default_http_port else port)

-- What DialContext gives for the address: the local address, if it is one of UDP.
abbrev pub Dial : Type 0
Dial = Context → String × String → Outcome (Option Bytes)

abbrev pub local_of : Option Bytes → Outcome Bytes
local_of none = err (sentinel err_no_internal_address)
local_of (some ip) = ok ip

module _ {D : Type 0} where
  unfoldable pub internal_address : Dial → Context → UpnpNat D → Outcome Bytes
  internal_address dial ctx u = do
    host ← device_host_port u.host u.host_port
    local ← with_prefix "resolve local address" (dial ctx host)
    local_of local

  unfoldable pub new_upnp_nat : D → String → String → String → UpnpNat D
  new_upnp_nat device typ host host_port = record {
    device = device;
    typ = typ;
    host = host;
    host_port = host_port;
    ports = [];
  }

-- What AddPortMapping has worked out when it takes the lock.
pub record UpnpCall : Type 0 where
  pub key : UpnpMappingKey
  pub ip : Bytes
  pub seconds : ℕ

abbrev pub key_of : String → ℤ → UpnpMappingKey
key_of proto internal_port = record { protocol = proto; port = wrap_to (2 ^ 16) internal_port }

-- `u.ports[key]`, which is 0 for a missing key.
abbrev pub cached_port : UpnpMappingKey → List (UpnpMappingKey × ℕ) → ℕ
cached_port key ports = elim (lookup key ports) [ some port ↦ port | none ↦ 0 ]

module _ {D : Type 0} where
  unfoldable pub prepare : Dial → Context → String → ℤ → ℤ → UpnpNat D → Outcome UpnpCall
  prepare dial ctx protocol internal_port timeout u = do
    proto ← map_protocol protocol
    ip ← with_prefix "get internal address" (internal_address dial ctx u)
    ok (record {
      key = key_of proto internal_port;
      ip = ip;
      seconds = wrap_to (2 ^ 32) (quot timeout second);
    })

  abbrev pub keep_device : UpnpNat D → D → UpnpNat D
  keep_device u d = record u { device = d }

  abbrev pub keep_port : UpnpMappingKey → ℕ → UpnpNat D → D → UpnpNat D
  keep_port key external u d = record u { device = d; ports = insert key external u.ports }

  -- What follows a request for an external port: `keep` it, or go on with `retry`.
  abbrev pub after_ask :
      UpnpNat D
      → (UpnpNat D → D → UpnpNat D)
      → ℕ
      → (Error → UpnpNat D → UpnpNat D × Outcome ℕ)
      → D × Outcome (Unit {0})
      → UpnpNat D × Outcome ℕ
  after_ask u keep external retry (d, ok _) = (keep u d, ok external)
  after_ask u keep external retry (d, err e) = retry e (keep_device u d)
  after_ask u keep external retry (d, panic) = (keep_device u d, panic)

  abbrev pub after_delete :
      UpnpMappingKey → UpnpNat D → D × Outcome (Unit {0}) → UpnpNat D × Outcome (Unit {0})
  after_delete key u (d, ok _) = (record u { device = d; ports = delete key u.ports }, ok tt)
  after_delete key u (d, err e) = (keep_device u d, err e)
  after_delete key u (d, panic) = (keep_device u d, panic)

module _ {D : Type 0} (client : UpnpClient D) where
  -- One AddPortMappingCtx for an external port.
  abbrev pub ask : Context → String → UpnpCall → ℕ → D → D × Outcome (Unit {0})
  ask ctx description call external d =
      client.add_port_mapping ctx external call.key.protocol call.key.port call.ip description
        call.seconds d

  -- The loop over random ports: `left` turns are to come, of which the first draws `draws turn`, and
  -- `last` is the error of the attempt before.
  unfoldable pub try_random :
      Context
      → String
      → UpnpCall
      → (ℕ → ℕ)
      → ℕ
      → ℕ
      → Option Error
      → UpnpNat D
      → UpnpNat D × Outcome ℕ
  try_random ctx description call draws zero turn none u = (u, ok 0)
  try_random ctx description call draws zero turn (some e) u = (u, err e)
  try_random ctx description call draws (suc left) turn last u =
      let external = random_port (draws turn) % 2 ^ 16 in
      after_ask u (keep_port call.key external) external
        (λ e u'. try_random ctx description call draws left (suc turn) (some e) u')
        (ask ctx description call external u.device)

  -- AddPortMapping behind the lock: the cached port first, then three random ones.
  unfoldable pub locked_add :
      Context → String → UpnpCall → (ℕ → ℕ) → UpnpNat D → UpnpNat D × Outcome ℕ
  locked_add ctx description call draws u =
      let external = cached_port call.key u.ports in
      if ltb 0 external
      then after_ask u keep_device external
          (λ e u'. try_random ctx description call draws 3 0 (some e) u')
          (ask ctx description call external u.device)
      else try_random ctx description call draws 3 0 none u

  unfoldable pub add_port_mapping :
      Dial → Context → String → ℤ → String → ℤ → (ℕ → ℕ) → UpnpNat D → UpnpNat D × Outcome ℕ
  add_port_mapping dial ctx protocol internal_port description timeout draws u =
      elim (prepare dial ctx protocol internal_port timeout u) [
        | ok call ↦ locked_add ctx description call draws u
        | err e ↦ (u, err e)
        | panic ↦ (u, panic)
      ]

  -- DeletePortMapping behind the lock: the entry goes only when the device has confirmed.
  unfoldable pub locked_delete :
      Context → UpnpMappingKey → UpnpNat D → UpnpNat D × Outcome (Unit {0})
  locked_delete ctx key u = elim (lookup key u.ports) [
    | none ↦ (u, ok tt)
    | some external ↦
        after_delete key u (client.delete_port_mapping ctx external key.protocol u.device)
  ]

  unfoldable pub delete_port_mapping :
      Context → String → ℤ → UpnpNat D → UpnpNat D × Outcome (Unit {0})
  delete_port_mapping ctx protocol internal_port u = elim (map_protocol protocol) [
    | ok proto ↦ locked_delete ctx (key_of proto internal_port) u
    | err e ↦ (u, err e)
    | panic ↦ (u, panic)
  ]
