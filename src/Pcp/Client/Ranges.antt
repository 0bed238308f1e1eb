-- ===== src/Pcp/Client/Ranges.antt =====
-- The fields of a Client stay in the ranges of their Go types.
pub mod Base
pub mod Operations
pub mod History
use go_nat.Base.{
  ℕ, ◌<◌, ◌^◌, ◌≡◌, refl, sym, ap, ◌∙◌, ◌⊎◌, inl, inr, Option, some, none, String, true, false,
  arith,
}
use go_nat.Base.Tests.{ltb, ◌==◌, if◌then◌else◌, Option-cases, Bool-cases}
use go_nat.Base.Lists.{All}
use go_nat.Base.Int.{ℤ, pos, negsuc, wrap_to}
use go_nat.Base.Outcome.{
  Outcome, ok, err, panic, Outcome-cases, ◌>>=◌, with_prefix, >>=-eq-ok, with_prefix-eq-ok,
}
use go_nat.Base.Bytes.{Bytes, IsByte}
use go_nat.Base.Assoc.{lookup}
use go_nat.Addr.{Addr, IsAddr, is_valid, is_unspecified, addr_from_slice}
use go_nat.Pcp.Protocol.{MapResponse}
use go_nat.Pcp.Protocol.Ranges.{
  IsNonce, IsMapResponse, map_at-IsMapResponse, unmap-IsAddr, addr_from_slice-IsAddr,
}
use go_nat.Pcp.Client.State.{
  Client, MappingKey, mapping_key_eq, key_eq, key_eq_iff, new_client, new_client_with_timeout,
  set_local_ip, lock_mapping, unlock_mapping, get_local_ip,
}
use go_nat.Pcp.Client.Epoch.{update_epoch}
use go_nat.Pcp.Client.Transport.Datagram.{GivesBytes, send_request-IsByte}
use go_nat.Pcp.Client.Mapping.{
  Env, MapCall, protocol_number, prepare, choose_nonce, claim_nonce, map_request, exchange,
  cache_external_ip, commit, locked_map, request_mapping,
}
use go_nat.Pcp.Client.Mapping.Accept.{exchange-ok}
use go_nat.Pcp.Client.Mapping.Frame.{nonce_after, nonces-locked_map}

-- A mapping of UDP or TCP, for a port from 1 to 65535.
abbrev pub IsKey : MappingKey → Type 0
IsKey k = ((k.proto ≡ 17) ⊎ (k.proto ≡ 6)) × (0 < k.port) × (k.port < 2 ^ 16)

pub record IsClient (c : Client) : Type 0 where
  pub gateway_range : IsAddr c.gateway
  pub local_range : IsAddr c.local_ip
  pub external_range : IsAddr c.external_ip
  pub epoch_range : c.last_epoch < 2 ^ 32
  pub nonces_range : (k : MappingKey) (n : Bytes) → lookup k c.nonces ≡ some n → IsKey k × IsNonce n

-- The sockets and crypto/rand give bytes, the latter as many as asked for.
pub record GivesRanges (env : Env) : Type 0 where
  pub socket_bytes : GivesBytes env.rounds
  pub entropy_bytes : (b : Bytes) → env.entropy ≡ ok b → IsNonce b

pub new_client-IsClient : (gateway : Bytes) → All IsByte gateway → IsClient (new_client gateway)
unfolding new_client new_client_with_timeout
new_client-IsClient gateway h = elim (Bool-cases (is_valid (addr_from_slice gateway))) [
  | inl v ↦
      rw (v, new_client_with_timeout)
        (record {
          gateway_range = unmap-IsAddr _ (addr_from_slice-IsAddr gateway h);
          local_range = tt;
          external_range = tt;
          epoch_range = omega arith;
          nonces_range = λ k n p. cc;
        })
  | inr v ↦
      rw (v, new_client_with_timeout)
        (record {
          gateway_range = tt;
          local_range = tt;
          external_range = tt;
          epoch_range = omega arith;
          nonces_range = λ k n p. cc;
        })
]

pub set_local_ip-IsClient :
    (ip : Bytes) (c : Client) → All IsByte ip → IsClient c → IsClient (set_local_ip ip c)
unfolding set_local_ip
set_local_ip-IsClient ip c h w = elim (Bool-cases (is_valid (addr_from_slice ip))) [
  | inl v ↦
      rw (v, set_local_ip)
        (record {
          gateway_range = w.gateway_range;
          local_range = unmap-IsAddr _ (addr_from_slice-IsAddr ip h);
          external_range = w.external_range;
          epoch_range = w.epoch_range;
          nonces_range = w.nonces_range;
        })
  | inr v ↦
      rw (v, set_local_ip)
        (record {
          gateway_range = w.gateway_range;
          local_range = tt;
          external_range = w.external_range;
          epoch_range = w.epoch_range;
          nonces_range = w.nonces_range;
        })
]

-- What the checks let through.
pub record IsCall (call : MapCall) : Type 0 where
  pub key_range : IsKey call.key
  pub fresh_range : IsNonce call.fresh

protocol_number-range : (s : String) (p : ℕ) → protocol_number s ≡ ok p → (p ≡ 17) ⊎ (p ≡ 6)
unfolding protocol_number
protocol_number-range s p h = ground (arith, h)

pub prepare-IsCall :
    (c : Client) (entropy : Outcome Bytes) (protocol : String) (i s : ℤ) (ip : Addr) (l : ℤ)
    (call : MapCall)
    → ((b : Bytes) → entropy ≡ ok b → IsNonce b)
    → prepare c entropy protocol i s ip l ≡ ok call
    → IsCall call
unfolding prepare
prepare-IsCall c entropy protocol (pos i) s ip l call e h = record {
  key_range =
      (protocol_number-range protocol call.key.proto (ground arith), ground arith, ground arith);
  fresh_range = e call.fresh (ground arith);
}
prepare-IsCall c entropy protocol (negsuc i) s ip l call e h = absurd (ground arith)
