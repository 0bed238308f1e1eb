-- ===== src/Gateway/Upnp/Address.antt =====
-- upnp.go: the address queries of upnp_NAT, and its Type. The device's answer, net.ParseIP and the
-- resolver are arguments.
use Prim.Native.Nat.{◌*◌}
use go_nat.Base.{Option, some, none, String}
use go_nat.Base.Outcome.{sentinel, err_no_external_address, Outcome, ok, err, ◌>>=◌}
use go_nat.Base.Bytes.{Bytes}
use go_nat.Context.{Context, background, with_timeout}
use go_nat.Pcp.Client.State.{second}
use go_nat.Gateway.Upnp.{UpnpNat, Dial, device_host_port, internal_address}

-- deviceTimeout
abbrev pub device_context : Context
device_context = with_timeout (10 * second) background

-- `if ip == nil`
abbrev pub parsed_ip : Option Bytes → Outcome Bytes
parsed_ip none = err (sentinel err_no_external_address)
parsed_ip (some ip) = ok ip

module _ {D : Type 0} where
  -- `get` is GetExternalIPAddressCtx of the client.
  unfoldable pub get_external_address :
      (Context → D → D × Outcome String)
      → (String → Option Bytes)
      → UpnpNat D
      → UpnpNat D × Outcome Bytes
  get_external_address get parse_ip u =
      let (d, answer) = get device_context u.device in
      (record u { device = d }, (answer >>= λ ip. parsed_ip (parse_ip ip)))

  -- `resolve` is net.ResolveUDPAddr on the host and the port.
  unfoldable pub get_device_address : (String × String → Outcome Bytes) → UpnpNat D → Outcome Bytes
  get_device_address resolve u = do host ← device_host_port u.host u.host_port; resolve host

  unfoldable pub get_internal_address : Dial → UpnpNat D → Outcome Bytes
  get_internal_address dial u = internal_address dial device_context u

  abbrev pub nat_type : UpnpNat D → String
  nat_type u = u.typ
