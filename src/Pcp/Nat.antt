-- ===== src/Pcp/Nat.antt =====
-- pcp/nat.go: the dual-stack NAT over an IPv4 and an IPv6 client. The two clients are two objects, so
-- what the goroutine for IPv6 does and what the IPv4 call does are independent, and their order does
-- not matter. `World` says what a client's operation meets under each context.
pub mod Delete
pub mod Servers
pub mod Add
pub mod Health
mod Examples
use go_nat.Base.{
  ℕ, ◌*◌, Bool, true, false, ◌&&◌, ◌||◌, Option, some, none, String, List, [], ◌∷◌, arith,
}
use go_nat.Base.Tests.{if◌then◌else◌}
use go_nat.Base.Int.{ℤ}
use go_nat.Base.Outcome.{
  Error, sentinel, wrap, join, with_cause, message, format_int, pcp_err_no_nat_found,
  pcp_err_no_internal_address, pcp_err_pinhole_rolled_back, pcp_err_pinhole_left_open, Outcome, ok,
  err, panic, ◌>>=◌, ◌>>◌, fail_if, with_prefix, map_ok,
}
use go_nat.Base.Bytes.{Bytes}
use go_nat.Context.{Context, caller, background, with_timeout, without_cancel}
use go_nat.Addr.{as_slice}
use go_nat.Pcp.Protocol.{MapResponse}
use go_nat.Pcp.Client.State.{Client, second, new_client, set_local_ip, gateway_ip, get_local_ip}
use go_nat.Pcp.Client.Epoch.{epoch_state_lost_of}
use go_nat.Pcp.Client.Mapping.{
  Env, bad_internal_port, add_port_mapping, delete_port_mapping, announce,
}
use go_nat.Pcp.Client.Mapping

abbrev pub external_address_timeout : ℕ
external_address_timeout = 10 * second

abbrev pub pinhole_timeout : ℕ
pinhole_timeout = 5 * second

abbrev pub World : Type 0
World = Context → Env

pub record Nat : Type 0 where
  pub client : Option Client
  pub client6 : Option Client
  pub pinhole_err : Option Error

unfoldable pub new_nat : Bytes → Bytes → Nat
new_nat gateway local_ip = record {
  client = some (set_local_ip local_ip (new_client gateway));
  client6 = none;
  pinhole_err = none;
}

abbrev pub nat_type : Nat → String
nat_type n = "PCP"

-- primary: which client a single-server operation uses.
abbrev pub primary : Nat → Outcome Client
primary n = elim n.client [
  | some c ↦ ok c
  | none ↦ elim n.client6 [ some c ↦ ok c | none ↦ err (sentinel pcp_err_no_nat_found) ]
]

-- Writes the primary client back.
abbrev pub set_primary : Nat → Client → Nat
set_primary n c = elim n.client [
  | some d ↦ record n { client = some c }
  | none ↦ record n { client6 = some c }
]

unfoldable pub get_device_address : Nat → Outcome (Option Bytes)
get_device_address n = do c ← primary n; ok (gateway_ip c)

abbrev pub update_primary {ℓ} : {A : Type ℓ} → Nat → Client × A → Nat × A
update_primary n (c, a) = (set_primary n c, a)

-- `w` and `w'` are what the temporary mapping and its deletion meet, `nanos` the clock.
unfoldable pub get_external_address : ℕ → World → World → Nat → Nat × Outcome Bytes
get_external_address nanos w w' n =
    let ctx = with_timeout external_address_timeout background in
    elim (primary n) [
      | ok c ↦ update_primary n (Mapping.get_external_address nanos (w ctx) (w' ctx) c)
      | err e ↦ (n, err e)
      | panic ↦ (n, panic)
    ]

abbrev pub no_internal_address : Outcome Bytes → Outcome Bytes
no_internal_address (ok b) = ok b
no_internal_address (err e) = err (with_cause (sentinel pcp_err_no_internal_address) e)
no_internal_address panic = panic

unfoldable pub get_internal_address : Nat → Outcome Bytes
get_internal_address n = do c ← primary n; no_internal_address (map_ok as_slice (get_local_ip c))

abbrev pub wrap_pinhole : Option Error → Option Error
wrap_pinhole none = none
wrap_pinhole (some e) = some (wrap "pcp ipv6" e)

unfoldable pub ipv6_pinhole_error : Nat → Option Error
ipv6_pinhole_error n = n.pinhole_err

unfoldable pub set_pinhole_err : Option Error → Nat → Nat
set_pinhole_err e n = record n { pinhole_err = wrap_pinhole e }

-- A method call on a nil *Client: the port checks read no field, and locking its mutex panics.
unfoldable pub nil_client_request {ℓ} : {A : Type ℓ} → ℤ → Outcome A
nil_client_request internal_port =
    fail_if (bad_internal_port internal_port)
      (message (format_int "invalid internal port: %d" internal_port))
    >> panic

abbrev pub external_port_of : MapResponse → ℕ
external_port_of m = m.external_port

-- The outcome of a single-client call recorded as the pinhole's.
abbrev pub error_or_nil {ℓ} : {A : Type ℓ} → Outcome A → Option Error
error_or_nil (ok a) = none
error_or_nil (err e) = some e
error_or_nil panic = none

abbrev pub finish_single {ℓ} : {A : Type ℓ} → String → Nat → Outcome A → Nat × Outcome A
finish_single prefix n (ok a) = (set_pinhole_err none n, ok a)
finish_single prefix n (err e) = (set_pinhole_err (some e) n, err (wrap prefix e))
finish_single prefix n panic = (n, panic)

-- rollbackPinhole: detached from the caller's context, and bounded.
unfoldable pub rollback_pinhole :
    World → Context → String → ℤ → Client → Client × Outcome (Unit {0})
rollback_pinhole w6 ctx protocol internal_port c6 =
    delete_port_mapping (w6 (with_timeout pinhole_timeout (without_cancel ctx))) protocol
      internal_port c6

-- What the pinhole's error becomes where a rollback was made.
abbrev pub rolled_back : Outcome (Unit {0}) → Outcome Error
rolled_back (ok _) = ok (sentinel pcp_err_pinhole_rolled_back)
rolled_back (err e) = ok (join (sentinel pcp_err_pinhole_left_open) ": " e)
rolled_back panic = panic

abbrev pub after_rollback : Nat → Error → Client × Outcome (Unit {0}) → Nat × Outcome ℕ
after_rollback n e (c6, r) = elim (rolled_back r) [
  | ok e6 ↦ (set_pinhole_err (some e6) (record n { client6 = some c6 }), err (wrap "add mapping" e))
  | err x ↦ (n, panic)
  | panic ↦ (n, panic)
]

-- AddPortMapping behind both calls, given the outcome of the pinhole and of the IPv4 mapping.
unfoldable pub finish_add :
    World
    → Context
    → String
    → ℤ
    → Client
    → Nat
    → Outcome MapResponse
    → Outcome MapResponse
    → Nat × Outcome ℕ
finish_add w6 ctx protocol internal_port c6 n (ok m6) (ok m) =
    (set_pinhole_err none n, ok m.external_port)
finish_add w6 ctx protocol internal_port c6 n (err e6) (ok m) =
    (set_pinhole_err (some e6) n, ok m.external_port)
finish_add w6 ctx protocol internal_port c6 n (ok m6) (err e) =
    after_rollback n e (rollback_pinhole w6 ctx protocol internal_port c6)
finish_add w6 ctx protocol internal_port c6 n (err e6) (err e) =
    (set_pinhole_err (some e6) n, err (wrap "add mapping" e))
finish_add w6 ctx protocol internal_port c6 n panic r = (n, panic)
finish_add w6 ctx protocol internal_port c6 n (ok m6) panic = (n, panic)
finish_add w6 ctx protocol internal_port c6 n (err e6) panic = (n, panic)

-- AddPortMapping where there is an IPv4 client, by whether there is an IPv6 one.
unfoldable pub add_with_client :
    World → World → Context → String → ℤ → ℤ → Nat → Client → Option Client → Nat × Outcome ℕ
add_with_client w4 w6 ctx protocol internal_port timeout n c none =
    let (c', r) = add_port_mapping (w4 ctx) protocol internal_port timeout c in
    elim r [
      | ok m ↦ (set_pinhole_err none (record n { client = some c' }), ok m.external_port)
      | err e ↦ (set_pinhole_err none (record n { client = some c' }), err (wrap "add mapping" e))
      | panic ↦ (record n { client = some c' }, panic)
    ]
add_with_client w4 w6 ctx protocol internal_port timeout n c (some c6) =
    let (c6', r6) =
      add_port_mapping (w6 (with_timeout pinhole_timeout ctx)) protocol internal_port timeout c6 in
    let (c', r) = add_port_mapping (w4 ctx) protocol internal_port timeout c in
    finish_add w6 ctx protocol internal_port c6' (record n { client = some c'; client6 = some c6' })
      r6 r

-- AddPortMapping where there is none.
unfoldable pub add_without_client :
    World → Context → String → ℤ → ℤ → Nat → Option Client → Nat × Outcome ℕ
add_without_client w6 ctx protocol internal_port timeout n none =
    finish_single "add mapping" n (nil_client_request internal_port)
add_without_client w6 ctx protocol internal_port timeout n (some c6) =
    let (c6', r6) = add_port_mapping (w6 ctx) protocol internal_port timeout c6 in
    finish_single "add mapping" (record n { client6 = some c6' }) (map_ok external_port_of r6)

-- NAT.AddPortMapping
unfoldable pub add_mapping : World → World → Context → String → ℤ → ℤ → Nat → Nat × Outcome ℕ
add_mapping w4 w6 ctx protocol internal_port timeout n = elim n.client [
  | none ↦ add_without_client w6 ctx protocol internal_port timeout n n.client6
  | some c ↦ add_with_client w4 w6 ctx protocol internal_port timeout n c n.client6
]
