-- ===== src/Pcp/Client/Ranges/Operations.antt =====
-- The operations on a Client keep its fields in their ranges.
use go_nat.Base.{ℕ, ◌<◌, ◌^◌, ◌≡◌, sym, ◌∙◌, inl, inr, some, String, arith}
use go_nat.Base.Tests.{Option-cases}
use go_nat.Base.Int.{ℤ}
use go_nat.Base.Outcome.{
  Outcome, ok, err, panic, Outcome-cases, with_prefix, >>=-eq-ok, with_prefix-eq-ok,
}
use go_nat.Base.Bytes.{Bytes}
use go_nat.Base.Assoc.{lookup}
use go_nat.Addr.{Addr}
use go_nat.Pcp.Protocol.{MapResponse, parse_response, build_announce_request}
use go_nat.Pcp.Protocol.Parse.{parse_response-cases}
use go_nat.Pcp.Protocol.Ranges.{IsNonce, IsMapResponse, map_at-IsMapResponse, word32-range}
use go_nat.Pcp.Client.State.{
  Client, MappingKey, mapping_key_eq, key_eq_iff, lock_mapping, get_local_ip,
}
use go_nat.Pcp.Client.Epoch.{update_epoch, epoch_state_lost_of}
use go_nat.Pcp.Client.Transport.{send_request}
use go_nat.Pcp.Client.Transport.Datagram.{GivesBytes, send_request-IsByte}
use go_nat.Pcp.Client.Mapping.{
  Env, MapCall, prepare, choose_nonce, claim_nonce, exchange, locked_map, request_mapping,
  announce_exchange, announce,
}
use go_nat.Pcp.Client.Mapping.Accept.{exchange-ok}
use go_nat.Pcp.Client.Mapping.Frame.{nonce_after, nonces-locked_map}
use go_nat.Pcp.Client.Ranges.{IsKey, IsClient, GivesRanges, IsCall, prepare-IsCall}
use go_nat.Pcp.Client.Ranges.Base.{IsBase, lock-IsBase, unlock-IsBase, claim-IsBase, commit-IsBase}

exchange-IsMapResponse :
    (c : Client) (env : Env) (call : MapCall) (nonce : Bytes) (m : MapResponse)
    → GivesBytes env.rounds
    → exchange c env.rounds call nonce ≡ ok m
    → IsMapResponse m
exchange-IsMapResponse c env call nonce m bytes h =
    let (packet, sent, long, reply, read, answers) = exchange-ok c env call nonce m h in
    rw read
      (map_at-IsMapResponse packet (send_request-IsByte c env.rounds _ packet bytes sent) long)

choose_nonce-IsNonce :
    (call : MapCall) (c : Client) → IsCall call → IsClient c → IsNonce (choose_nonce call c)
unfolding choose_nonce
choose_nonce-IsNonce call c k w = elim (Option-cases (lookup call.key c.nonces)) [
  | inl n ↦ rw (n, choose_nonce) k.fresh_range
  | inr (b, y) ↦ rw (y, choose_nonce) (w.nonces_range call.key b y).1
]

nonce_after-range :
    (j : MappingKey) (call : MapCall) (c : Client) (o : Outcome MapResponse) (n : Bytes)
    → IsCall call
    → IsClient c
    → nonce_after j call c o ≡ some n
    → IsKey j × IsNonce n
nonce_after-range j call c (ok m) n k w h =
    ground (
      arith,
      key_eq_iff call.key j,
      k.key_range,
      choose_nonce-IsNonce call c k w,
      w.nonces_range j n,
    )
nonce_after-range j call c (err e) n k w h =
    ground (
      arith,
      key_eq_iff call.key j,
      k.key_range,
      choose_nonce-IsNonce call c k w,
      w.nonces_range j n,
    )
nonce_after-range j call c panic n k w h =
    ground (
      arith,
      key_eq_iff call.key j,
      k.key_range,
      choose_nonce-IsNonce call c k w,
      w.nonces_range j n,
    )

module _ (env : Env) (gives : GivesRanges env) (call : MapCall) (c : Client) (k : IsCall call)
    (w : IsClient c) where
  claimed-IsBase : IsBase (claim_nonce call (lock_mapping call.key c))
  claimed-IsBase = claim-IsBase call _ (
      lock-IsBase call.key c (record {
        gateway_in = w.gateway_range;
        local_in = w.local_range;
        external_in = w.external_range;
        epoch_in = w.epoch_range;
      }))

  locked_map-IsBase : IsBase (locked_map env call c).0
  unfolding locked_map
  locked_map-IsBase =
      let locked = lock_mapping call.key c in
      let claimed = claim_nonce call locked in
      elim (Outcome-cases (exchange claimed env.rounds call (choose_nonce call locked))) [
        | inl (m, e) ↦
            rw (e, locked_map)
              (unlock-IsBase call.key _ (
                commit-IsBase env.now call m claimed
                  (exchange-IsMapResponse claimed env call _ m gives.socket_bytes e)
                  claimed-IsBase))
        | inr (inl (x, e)) ↦ rw (e, locked_map) (unlock-IsBase call.key _ claimed-IsBase)
        | inr (inr e) ↦ rw (e, locked_map) (unlock-IsBase call.key _ claimed-IsBase)
      ]

  locked_map-IsClient : IsClient (locked_map env call c).0
  locked_map-IsClient =
      let b = locked_map-IsBase in
      record {
        gateway_range = b.gateway_in;
        local_range = b.local_in;
        external_range = b.external_in;
        epoch_range = b.epoch_in;
        nonces_range = λ j n h.
            nonce_after-range j call c (locked_map env call c).1 n k w
              (sym (nonces-locked_map env call c j) ∙ h);
      }

module _ (env : Env) (gives : GivesRanges env) (c : Client) (w : IsClient c) where
  pub request_mapping-IsClient :
      (protocol : String) (i s : ℤ) (ip : Addr) (l : ℤ)
      → IsClient (request_mapping env protocol i s ip l c).0
  unfolding request_mapping
  request_mapping-IsClient protocol i s ip l =
      elim (Outcome-cases (prepare c env.entropy protocol i s ip l)) [
        | inl (call, e) ↦
            rw (e, request_mapping)
              (locked_map-IsClient env gives call c
                (prepare-IsCall c env.entropy protocol i s ip l call gives.entropy_bytes e) w)
        | inr (inl (x, e)) ↦ rw (e, request_mapping) w
        | inr (inr e) ↦ rw (e, request_mapping) w
      ]

  announce_exchange-range : (epoch : ℕ) → announce_exchange c env.rounds ≡ ok epoch → epoch < 2 ^ 32
  unfolding announce_exchange
  announce_exchange-range epoch h =
      let (local, _, h1) = >>=-eq-ok (with_prefix "get local IP" (get_local_ip c)) _ h in
      let (req, _, h1') = >>=-eq-ok (build_announce_request local) _ h1 in
      let (packet, sent, h2) =
        >>=-eq-ok (with_prefix "send announce" (send_request c env.rounds req).0) _ h1' in
      let (parsed, p, h3) =
        >>=-eq-ok (with_prefix "parse announce response" (parse_response packet)) _ h2 in
      let bytes =
        send_request-IsByte c env.rounds _ packet gives.socket_bytes (with_prefix-eq-ok _ _ sent) in
      let q : parse_response packet ≡ ok parsed = with_prefix-eq-ok _ _ p in
      elim (parse_response-cases packet) [
        | inl (l, r, e) ↦ ground (arith, word32-range packet 8 bytes, e, q, h3)
        | inr (x, e, n) ↦ absurd (ground (arith, e, q))
      ]

  pub announce-IsClient : IsClient (announce env c).0
  unfolding announce update_epoch
  announce-IsClient = elim (Outcome-cases (announce_exchange c env.rounds)) [
    | inl (epoch, e) ↦
        rw (e, announce)
          (record {
            gateway_range = w.gateway_range;
            local_range = w.local_range;
            external_range = w.external_range;
            epoch_range = announce_exchange-range epoch e;
            nonces_range = w.nonces_range;
          })
    | inr (inl (x, e)) ↦ rw (e, announce) w
    | inr (inr e) ↦ rw (e, announce) w
  ]

pub epoch_state_lost_of-IsClient : (c : Client) → IsClient c → IsClient (epoch_state_lost_of c).0
unfolding epoch_state_lost_of
epoch_state_lost_of-IsClient c w = record {
  gateway_range = w.gateway_range;
  local_range = w.local_range;
  external_range = w.external_range;
  epoch_range = w.epoch_range;
  nonces_range = w.nonces_range;
}
