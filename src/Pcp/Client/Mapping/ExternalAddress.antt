-- ===== src/Pcp/Client/Mapping/ExternalAddress.antt =====
-- GetExternalAddress: the temporary mapping that it makes, and the mappings of the caller.
use go_nat.Base.{
  ℕ, ◌^◌, ◌≤◌, ◌<◌, ◌≡◌, refl, sym, ap, ◌∙◌, ◌≢◌, inl, inr, false, none, String, arith,
}
use go_nat.Base.Tests.{Bool-cases}
use go_nat.Base.Int.{ℤ, pos, wrap_to}
use go_nat.Base.Outcome.{Outcome, ok, err, panic, Outcome-cases, >>=-eq-ok, with_prefix-eq-ok}
use go_nat.Base.Bytes.{Bytes}
use go_nat.Base.Assoc.{lookup}
use go_nat.Addr.{Addr, invalid, is_valid, as_slice}
use go_nat.Pcp.Protocol.{MapResponse}
use go_nat.Pcp.Client.State.{Client, MappingKey, mapping_key_eq, key_eq, key_eq_iff, second}
use go_nat.Pcp.Client.Mapping.{
  Env, MapCall, protocol_number, lifetime_seconds, prepare, locked_map, request_mapping,
  add_port_mapping, delete_port_mapping, done, ephemeral_port, get_external_address,
}
use go_nat.Pcp.Client.Mapping.Frame.{nonce_after, nonces-locked_map}

ephemeral_port-range : (nanos : ℕ) → (49152 ≤ ephemeral_port nanos) × (ephemeral_port nanos < 65535)
unfolding ephemeral_port
ephemeral_port-range nanos = (omega arith, omega arith)

-- What the checks make of the arguments.
record PreparedFrom (protocol : String) (i l : ℤ) (call : MapCall) : Type 0 where
  protocol_read : protocol_number protocol ≡ ok call.key.proto
  port_wrapped : call.key.port ≡ wrap_to (2 ^ 16) i
  lifetime_read : call.lifetime_sec ≡ lifetime_seconds l

prepare-PreparedFrom :
    (c : Client) (entropy : Outcome Bytes) (protocol : String) (i s : ℤ) (ip : Addr) (l : ℤ)
    (call : MapCall)
    → prepare c entropy protocol i s ip l ≡ ok call
    → PreparedFrom protocol i l call
unfolding prepare
prepare-PreparedFrom c entropy protocol i s ip l call h = record {
  protocol_read = ground arith;
  port_wrapped = ground arith;
  lifetime_read = ground arith;
}

nonce_after-other :
    (call : MapCall) (c : Client) (o : Outcome MapResponse) (j : MappingKey)
    → key_eq call.key j ≡ false
    → nonce_after j call c o ≡ lookup j c.nonces
nonce_after-other call c (ok m) j h = rw h refl
nonce_after-other call c (err e) j h = rw h refl
nonce_after-other call c panic j h = rw h refl

-- The mapping that a UDP call for port `e` is about.
abbrev pub udp_key : ℕ → MappingKey
udp_key e = record { proto = 17; port = e }

prepared-udp_key :
    (e : ℕ) (l : ℤ) (call : MapCall)
    → e < 2 ^ 16
    → PreparedFrom "udp" (pos e) l call
    → call.key ≡ udp_key e
unfolding protocol_number
prepared-udp_key e l call h p = ground (arith, p.protocol_read, p.port_wrapped)

module _ (env : Env) (e : ℕ) (small : e < 2 ^ 16) (s : ℤ) (ip : Addr) (l : ℤ) (c : Client) where
  other_nonces :
      (j : MappingKey)
      → udp_key e ≢ j
      → lookup j (request_mapping env "udp" (pos e) s ip l c).0.nonces ≡ lookup j c.nonces
  unfolding request_mapping
  other_nonces j ne = elim (Outcome-cases (prepare c env.entropy "udp" (pos e) s ip l)) [
    | inl (call, h) ↦
        let p = prepare-PreparedFrom c env.entropy "udp" (pos e) s ip l call h in
        rw (h, request_mapping)
          (nonces-locked_map env call c j
            ∙ nonce_after-other call c (locked_map env call c).1 j
                (ground (arith, key_eq_iff call.key j, prepared-udp_key e l call small p, ne)))
    | inr (inl (x, h)) ↦ rw (h, request_mapping) refl
    | inr (inr h) ↦ rw (h, request_mapping) refl
  ]

  -- A call that succeeds has passed its checks.
  mapped_call :
      (m : MapResponse)
      → (request_mapping env "udp" (pos e) s ip l c).1 ≡ ok m
      → (call : MapCall) × PreparedFrom "udp" (pos e) l call
        × (request_mapping env "udp" (pos e) s ip l c ≡ locked_map env call c)
  unfolding request_mapping
  mapped_call m answered = elim (Outcome-cases (prepare c env.entropy "udp" (pos e) s ip l)) [
    | inl (call, h) ↦ (
      call,
      prepare-PreparedFrom c env.entropy "udp" (pos e) s ip l call h,
      rw (h, request_mapping) refl,
    )
    | inr (inl (x, h)) ↦ absurd (ground (arith, answered, h))
    | inr (inr h) ↦ absurd (ground (arith, answered, h))
  ]

  -- A confirmed delete forgets the nonce.
  deleted_nonce :
      (m : MapResponse)
      → lifetime_seconds l ≡ 0
      → (request_mapping env "udp" (pos e) s ip l c).1 ≡ ok m
      → lookup (udp_key e) (request_mapping env "udp" (pos e) s ip l c).0.nonces ≡ none
  deleted_nonce m zero_l answered =
      let (call, p, same) = mapped_call m answered in
      rw same (
        nonces-locked_map env call c (udp_key e)
        ∙ ap (nonce_after (udp_key e) call c) (sym (ap (λ x. x.1) same) ∙ answered)
        ∙ ground (
          arith,
          key_eq_iff call.key (udp_key e),
          prepared-udp_key e l call small p,
          p.lifetime_read,
        ))

module _ (nanos : ℕ) (env env' : Env) (c : Client) where
  small : ephemeral_port nanos < 2 ^ 16
  small = omega (arith, (ephemeral_port-range nanos).1)

  -- The temporary mapping, and its deletion.
  abbrev pub added : Client × Outcome MapResponse
  added = add_port_mapping env "udp" (pos (ephemeral_port nanos)) (pos second) c

  abbrev pub deleted : Client × Outcome (Unit {0})
  deleted = delete_port_mapping env' "udp" (pos (ephemeral_port nanos)) added.0

  added_other :
      (j : MappingKey)
      → udp_key (ephemeral_port nanos) ≢ j
      → lookup j added.0.nonces ≡ lookup j c.nonces
  unfolding add_port_mapping
  added_other j ne =
      other_nonces env (ephemeral_port nanos) small (pos (ephemeral_port nanos)) invalid
        (pos second) c j ne

  deleted_other :
      (j : MappingKey)
      → udp_key (ephemeral_port nanos) ≢ j
      → lookup j deleted.0.nonces ≡ lookup j c.nonces
  unfolding delete_port_mapping
  deleted_other j ne =
      other_nonces env' (ephemeral_port nanos) small (pos 0) invalid (pos 0) added.0 j ne
      ∙ added_other j ne

  confirmed : deleted.1 ≡ ok tt → lookup (udp_key (ephemeral_port nanos)) deleted.0.nonces ≡ none
  unfolding delete_port_mapping lifetime_seconds
  confirmed h =
      let (m, p, _) = >>=-eq-ok _ done h in
      deleted_nonce env' (ephemeral_port nanos) small (pos 0) invalid (pos 0) added.0 m refl
        (with_prefix-eq-ok "delete mapping" _ p)

  -- GetExternalAddress uses a port from 49152 to 65534 and leaves the nonces of all mappings but that of
  -- UDP and this port as they are, on every path; where no address is cached and the temporary mapping
  -- is made, and its deletion is confirmed, no nonce is left for that port, and the address is the one
  -- in the answer to the mapping's request.
  pub get_external_address-frame :
      let (d, r) = get_external_address nanos env env' c in
      (49152 ≤ ephemeral_port nanos)
      × (ephemeral_port nanos < 65535)
      × ((j : MappingKey)
          → udp_key (ephemeral_port nanos) ≢ j
          → lookup j d.nonces ≡ lookup j c.nonces)
      × ((m : MapResponse)
          → is_valid c.external_ip ≡ false
          → added.1 ≡ ok m
          → (r ≡ ok (as_slice m.external_ip))
            × (deleted.1 ≡ ok tt → lookup (udp_key (ephemeral_port nanos)) d.nonces ≡ none))
  unfolding get_external_address
  get_external_address-frame = (
    (ephemeral_port-range nanos).0,
    (ephemeral_port-range nanos).1,
    λ j ne. elim (Bool-cases (is_valid c.external_ip)) [
      | inl v ↦ rw (v, get_external_address) refl
      | inr v ↦ elim (Outcome-cases added.1) [
        | inl (m, h) ↦ rw (v, h, get_external_address) (deleted_other j ne)
        | inr (inl (x, h)) ↦ rw (v, h, get_external_address) (added_other j ne)
        | inr (inr h) ↦ rw (v, h, get_external_address) (added_other j ne)
      ]
    ],
    λ m v h. rw (v, h, get_external_address) (refl, confirmed),
  )
