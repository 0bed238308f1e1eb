-- ===== src/Pcp/Client/State.antt =====
-- pcp/client.go: the Client struct, its constructors and accessors, and the locks of the mappings.
use go_nat.Base.{
  ℕ, ◌*◌, ◌^◌, ◌≡◌, ◌↔◌, Bool, true, false, ◌&&◌, Option, some, none, List, [], arith,
}
use go_nat.Base.Tests.{◌==◌, if◌then◌else◌}
use go_nat.Base.Int.{ℤ, pos}
use go_nat.Base.Outcome.{message, plain, Outcome, ok, err}
use go_nat.Base.Bytes.{Bytes}
use go_nat.Base.Assoc.{Eq, insert}
use go_nat.Addr.{Addr, invalid, is_valid, unmap, addr_from_slice, as_slice}

-- Durations and times are nanoseconds.
abbrev pub second : ℕ
second = 10 ^ 9

abbrev pub default_timeout : ℤ
default_timeout = pos (3 * second)

pub record MappingKey : Type 0 where
  pub proto : ℕ
  pub port : ℕ

abbrev pub key_eq : MappingKey → MappingKey → Bool
key_eq a b = a.proto == b.proto && a.port == b.port

pub key_eq_iff : (a b : MappingKey) → (key_eq a b ≡ true) ↔ (a ≡ b)
key_eq_iff a b = ground arith

instance abbrev pub mapping_key_eq : Eq MappingKey
mapping_key_eq = record { beq = key_eq; beq_iff = key_eq_iff }

-- `epoch_time` is none for Go's zero time. A map is an association list, and a nil map is
-- the empty one, so the `make` that a nil map gets before a write is no step of its own.
-- `mapping_locks` says of each key that has a mutex whether it is held.
pub record Client : Type 0 where
  pub gateway : Addr
  pub timeout : ℤ
  pub local_ip : Addr
  pub last_epoch : ℕ
  pub epoch_time : Option ℕ
  pub external_ip : Addr
  pub epoch_state_lost : Bool
  pub nonces : List (MappingKey × Bytes)
  pub mapping_locks : List (MappingKey × Bool)

-- The struct literal that sets the gateway and the timeout.
abbrev pub blank_client : Addr → ℤ → Client
blank_client gateway timeout = record {
  gateway = gateway;
  timeout = timeout;
  local_ip = invalid;
  last_epoch = 0;
  epoch_time = none;
  external_ip = invalid;
  epoch_state_lost = false;
  nonces = [];
  mapping_locks = [];
}

unfoldable pub new_client_with_timeout : Bytes → ℤ → Client
new_client_with_timeout gateway timeout =
    let addr = addr_from_slice gateway in
    if is_valid addr then blank_client (unmap addr) timeout else blank_client invalid timeout

unfoldable pub new_client : Bytes → Client
unfolding new_client_with_timeout
new_client gateway = new_client_with_timeout gateway default_timeout

unfoldable pub set_local_ip : Bytes → Client → Client
set_local_ip ip c =
    let addr = addr_from_slice ip in
    if is_valid addr then record c { local_ip = unmap addr } else record c { local_ip = invalid }

-- Client.Gateway: the bytes of the address, none for nil.
unfoldable pub gateway_ip : Client → Option Bytes
gateway_ip c = if is_valid c.gateway then some (as_slice c.gateway) else none

unfoldable pub get_local_ip : Client → Outcome Addr
get_local_ip c =
    if is_valid c.local_ip
    then ok c.local_ip
    else err (message (plain "local IP not set for gateway %s"))

unfoldable pub last_epoch_of : Client → ℕ
last_epoch_of c = c.last_epoch

-- lockMapping up to the point where the lock is held: the mutex is made on first use. A caller that
-- finds it held waits until it is free, so here it is free.
unfoldable pub lock_mapping : MappingKey → Client → Client
unfolding insert
lock_mapping key c = record c { mapping_locks = insert key true c.mapping_locks }

-- The function that lockMapping returns.
unfoldable pub unlock_mapping : MappingKey → Client → Client
unfolding insert
unlock_mapping key c = record c { mapping_locks = insert key false c.mapping_locks }
