-- ===== src/Pcp/Client/Ranges/Base.antt =====
-- The single steps of a MAP operation, on the fields besides the nonces.
use go_nat.Base.{ℕ, ◌<◌, ◌^◌, inl, inr, arith}
use go_nat.Base.Tests.{ltb, Bool-cases}
use go_nat.Addr.{IsAddr}
use go_nat.Pcp.Protocol.{MapResponse}
use go_nat.Pcp.Protocol.Ranges.{IsMapResponse}
use go_nat.Pcp.Client.State.{Client, MappingKey, mapping_key_eq, lock_mapping, unlock_mapping}
use go_nat.Pcp.Client.Epoch.{update_epoch}
use go_nat.Pcp.Client.Mapping.{MapCall, claim_nonce, cache_external_ip, commit}

-- The fields without the nonces.
pub record IsBase (c : Client) : Type 0 where
  pub gateway_in : IsAddr c.gateway
  pub local_in : IsAddr c.local_ip
  pub external_in : IsAddr c.external_ip
  pub epoch_in : c.last_epoch < 2 ^ 32

pub lock-IsBase : (key : MappingKey) (c : Client) → IsBase c → IsBase (lock_mapping key c)
unfolding lock_mapping
lock-IsBase key c b = record {
  gateway_in = b.gateway_in;
  local_in = b.local_in;
  external_in = b.external_in;
  epoch_in = b.epoch_in;
}

pub unlock-IsBase : (key : MappingKey) (c : Client) → IsBase c → IsBase (unlock_mapping key c)
unfolding unlock_mapping
unlock-IsBase key c b = record {
  gateway_in = b.gateway_in;
  local_in = b.local_in;
  external_in = b.external_in;
  epoch_in = b.epoch_in;
}

pub claim-IsBase : (call : MapCall) (c : Client) → IsBase c → IsBase (claim_nonce call c)
unfolding claim_nonce
claim-IsBase call c b = elim (Bool-cases (ltb 0 call.lifetime_sec)) [
  | inl y ↦
      rw (y, claim_nonce)
        (record {
          gateway_in = b.gateway_in;
          local_in = b.local_in;
          external_in = b.external_in;
          epoch_in = b.epoch_in;
        })
  | inr n ↦ rw (n, claim_nonce) b
]

pub commit-IsBase :
    (now : ℕ) (call : MapCall) (m : MapResponse) (c : Client)
    → IsMapResponse m
    → IsBase c
    → IsBase (commit now call m c)
unfolding commit cache_external_ip update_epoch
commit-IsBase now call m c r b = record {
  gateway_in = ground (arith, b.gateway_in);
  local_in = ground (arith, b.local_in);
  external_in = ground (arith, b.external_in, r.ip_range);
  epoch_in = ground (arith, r.epoch_range);
}
