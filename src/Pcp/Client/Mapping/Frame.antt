-- ===== src/Pcp/Client/Mapping/Frame.antt =====
-- What a MAP request leaves behind on every path, errors included: the stored nonces, the locks, and
-- the fields that it does not touch.
use go_nat.Base.{ℕ, ◌≡◌, ◌∙◌, refl, ◌≢◌, inl, inr, true, false, Option, some, none, String, arith}
use go_nat.Base.Tests.{ltb, ◌==◌, if◌then◌else◌}
use go_nat.Base.Int.{ℤ}
use go_nat.Base.Outcome.{Outcome, ok, err, panic, Outcome-cases}
use go_nat.Base.Bytes.{Bytes}
use go_nat.Base.Assoc.{lookup, lookup-insert, lookup-delete}
use go_nat.Addr.{Addr}
use go_nat.Pcp.Protocol.{MapResponse}
use go_nat.Pcp.Client.State.{
  Client, MappingKey, mapping_key_eq, key_eq, lock_mapping, unlock_mapping,
}
use go_nat.Pcp.Client.Epoch.{update_epoch}
use go_nat.Pcp.Client.Mapping.{
  Env, MapCall, prepare, choose_nonce, claim_nonce, exchange, cache_external_ip, commit, locked_map,
  request_mapping,
}

-- The nonce stored for `j` behind a request that ended with `o`.
abbrev pub nonce_after : MappingKey → MapCall → Client → Outcome MapResponse → Option Bytes
nonce_after j call c (ok m) =
    if key_eq call.key j
    then (if ltb 0 call.lifetime_sec then some (choose_nonce call c) else none)
    else lookup j c.nonces
nonce_after j call c (err e) =
    if key_eq call.key j
    then (if ltb 0 call.lifetime_sec then some (choose_nonce call c) else lookup j c.nonces)
    else lookup j c.nonces
nonce_after j call c panic =
    if key_eq call.key j
    then (if ltb 0 call.lifetime_sec then some (choose_nonce call c) else lookup j c.nonces)
    else lookup j c.nonces

-- The fields that no operation on mappings changes.
pub record SameSetup (c d : Client) : Type 0 where
  pub same_gateway : d.gateway ≡ c.gateway
  pub same_timeout : d.timeout ≡ c.timeout
  pub same_local_ip : d.local_ip ≡ c.local_ip

pub choose_nonce-lock :
    (call : MapCall) (c : Client)
    → choose_nonce call (lock_mapping call.key c) ≡ choose_nonce call c
unfolding choose_nonce lock_mapping
choose_nonce-lock call c = refl

claimed_nonces :
    (call : MapCall) (c : Client) (j : MappingKey)
    → lookup j (claim_nonce call (lock_mapping call.key c)).nonces ≡ (
        if key_eq call.key j
        then (if ltb 0 call.lifetime_sec then some (choose_nonce call c) else lookup j c.nonces)
        else lookup j c.nonces)
unfolding claim_nonce choose_nonce lock_mapping
claimed_nonces call c j = ground (arith, lookup-insert call.key j (choose_nonce call c) c.nonces)

cache_external_ip-nonces : (ip : Addr) (c : Client) → (cache_external_ip ip c).nonces ≡ c.nonces
unfolding cache_external_ip
cache_external_ip-nonces ip c = ground arith

pub committed_nonces :
    (now : ℕ) (call : MapCall) (m : MapResponse) (c : Client) (j : MappingKey)
    → lookup j (commit now call m c).nonces ≡ (
        if call.lifetime_sec == 0
        then (if key_eq call.key j then none else lookup j c.nonces)
        else lookup j c.nonces)
unfolding commit update_epoch
committed_nonces now call m c j = ground (
  arith,
  cache_external_ip-nonces m.external_ip (update_epoch now m.epoch c).0,
  lookup-delete call.key j (cache_external_ip m.external_ip (update_epoch now m.epoch c).0).nonces,
)

-- Whatever the outcome, the nonce of the request's own mapping is stored when it asks for a lifetime
-- (so that a lost answer can be followed by a delete), it is forgotten only when a delete was
-- confirmed, and the nonces of all other mappings stay.
pub nonces-locked_map :
    (env : Env) (call : MapCall) (c : Client) (j : MappingKey)
    → lookup j (locked_map env call c).0.nonces ≡ nonce_after j call c (locked_map env call c).1
unfolding locked_map unlock_mapping
nonces-locked_map env call c j =
    elim (Outcome-cases (
      exchange (claim_nonce call (lock_mapping call.key c)) env.rounds call
        (choose_nonce call (lock_mapping call.key c)))) [
          | inl (m, e) ↦
              rw (e, locked_map)
                (ground (
                  arith,
                  committed_nonces env.now call m (claim_nonce call (lock_mapping call.key c)) j,
                  claimed_nonces call c j,
                ))
          | inr (inl (x, e)) ↦ rw (e, locked_map) (claimed_nonces call c j)
          | inr (inr e) ↦ rw (e, locked_map) (claimed_nonces call c j)
        ]

-- No mapping's lock is held.
abbrev pub IsUnlocked : Client → Type 0
IsUnlocked c = (j : MappingKey) → lookup j c.mapping_locks ≢ some true

unlock-lock-IsUnlocked :
    (key : MappingKey) (c d : Client)
    → IsUnlocked c
    → d.mapping_locks ≡ (lock_mapping key c).mapping_locks
    → IsUnlocked (unlock_mapping key d)
unfolding unlock_mapping lock_mapping
unlock-lock-IsUnlocked key c d u e j = ground (
  arith,
  u j,
  lookup-insert key j false d.mapping_locks,
  lookup-insert key j true c.mapping_locks,
)

pub claim_nonce-locks :
    (call : MapCall) (c : Client) → (claim_nonce call c).mapping_locks ≡ c.mapping_locks
unfolding claim_nonce
claim_nonce-locks call c = ground arith

pub commit-locks :
    (now : ℕ) (call : MapCall) (m : MapResponse) (c : Client)
    → (commit now call m c).mapping_locks ≡ c.mapping_locks
unfolding commit cache_external_ip update_epoch
commit-locks now call m c = ground arith

locked_map-IsUnlocked :
    (env : Env) (call : MapCall) (c : Client) → IsUnlocked c → IsUnlocked (locked_map env call c).0
unfolding locked_map
locked_map-IsUnlocked env call c u =
    elim (Outcome-cases (
      exchange (claim_nonce call (lock_mapping call.key c)) env.rounds call
        (choose_nonce call (lock_mapping call.key c)))) [
          | inl (m, e) ↦
              rw (e, locked_map)
                (unlock-lock-IsUnlocked call.key c _ u (
                  commit-locks env.now call m _ ∙ claim_nonce-locks call (lock_mapping call.key c)))
          | inr (inl (x, e)) ↦
              rw (e, locked_map)
                (unlock-lock-IsUnlocked call.key c _ u
                  (claim_nonce-locks call (lock_mapping call.key c)))
          | inr (inr e) ↦
              rw (e, locked_map)
                (unlock-lock-IsUnlocked call.key c _ u
                  (claim_nonce-locks call (lock_mapping call.key c)))
        ]

pub SameSetup-trans : (b c d : Client) → SameSetup b c → SameSetup c d → SameSetup b d
SameSetup-trans b c d p q = ground arith

pub claim_nonce-SameSetup : (call : MapCall) (c : Client) → SameSetup c (claim_nonce call c)
unfolding claim_nonce
claim_nonce-SameSetup call c = ground arith

commit-SameSetup :
    (now : ℕ) (call : MapCall) (m : MapResponse) (c : Client) → SameSetup c (commit now call m c)
unfolding commit cache_external_ip update_epoch
commit-SameSetup now call m c = ground arith

pub lock-SameSetup : (key : MappingKey) (c : Client) → SameSetup c (lock_mapping key c)
unfolding lock_mapping
lock-SameSetup key c = ground arith

unlock-SameSetup : (key : MappingKey) (c : Client) → SameSetup c (unlock_mapping key c)
unfolding unlock_mapping
unlock-SameSetup key c = ground arith

locked_map-SameSetup :
    (env : Env) (call : MapCall) (c : Client) → SameSetup c (locked_map env call c).0
unfolding locked_map
locked_map-SameSetup env call c = elim (Outcome-cases (exchange d env.rounds call nonce)) [
  | inl (m, e) ↦
      rw (e, locked_map)
        (SameSetup-trans c _ _ (SameSetup-trans c d _ claimed (commit-SameSetup env.now call m d))
          (unlock-SameSetup call.key _))
  | inr (inl (x, e)) ↦
      rw (e, locked_map) (SameSetup-trans c d _ claimed (unlock-SameSetup call.key d))
  | inr (inr e) ↦ rw (e, locked_map) (SameSetup-trans c d _ claimed (unlock-SameSetup call.key d))
]
  where
    d : Client
    d = claim_nonce call (lock_mapping call.key c)

    nonce : Bytes
    nonce = choose_nonce call (lock_mapping call.key c)

    claimed : SameSetup c d
    claimed = SameSetup-trans c _ d (lock-SameSetup call.key c) (claim_nonce-SameSetup call _)

module _ (env : Env) (protocol : String) (internal_port suggested_port : ℤ) (suggested_ip : Addr)
    (lifetime : ℤ) (c : Client) where
  -- A MAP operation gives back the lock that it takes, on every path, and never touches the gateway,
  -- the timeout or the local address.
  pub request_mapping-frame :
      IsUnlocked c
      → let d =
          (request_mapping env protocol internal_port suggested_port suggested_ip lifetime c).0 in
        IsUnlocked d × SameSetup c d
  unfolding request_mapping
  request_mapping-frame u =
      elim (Outcome-cases
        (prepare c env.entropy protocol internal_port suggested_port suggested_ip lifetime)) [
          | inl (call, e) ↦
              rw (e, request_mapping)
                (locked_map-IsUnlocked env call c u, locked_map-SameSetup env call c)
          | inr (inl (x, e)) ↦ rw (e, request_mapping) (u, ground arith)
          | inr (inr e) ↦ rw (e, request_mapping) (u, ground arith)
        ]
