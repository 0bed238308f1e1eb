-- ===== src/Pcp/Client/Mapping/Nonce.antt =====
-- The nonce of a mapping over a history of requests: renewals and deletes present the nonce that the
-- mapping was created with (RFC 6887, section 11.3).
use go_nat.Base.{◌≡◌, refl, ap, ◌≢◌, ◌∙◌, inl, inr, some, String, List, [], ◌∷◌, arith}
use go_nat.Base.Int.{ℤ}
use go_nat.Base.Outcome.{Outcome, ok, err, panic, Outcome-cases, ◌>>=◌, with_prefix}
use go_nat.Base.Bytes.{Bytes}
use go_nat.Base.Assoc.{lookup}
use go_nat.Addr.{Addr}
use go_nat.Pcp.Protocol.{MapResponse, build_map_request, parse_map_response}
use go_nat.Pcp.Client.State.{Client, MappingKey, mapping_key_eq, key_eq_iff, lock_mapping}
use go_nat.Pcp.Client.Transport.{send_request}
use go_nat.Pcp.Client.Mapping.{
  Env, MapCall, prepare, choose_nonce, claim_nonce, map_request, check_map_response, exchange,
  locked_map, request_mapping,
}
use go_nat.Pcp.Client.Mapping.Frame.{nonce_after, nonces-locked_map}

-- The arguments of one call of addPortMappingWithHint, with what the environment answers.
pub record Request : Type 0 where
  pub env : Env
  pub protocol : String
  pub internal_port : ℤ
  pub suggested_port : ℤ
  pub suggested_ip : Addr
  pub lifetime : ℤ

abbrev pub prepared : Request → Client → Outcome MapCall
prepared r c =
    prepare c r.env.entropy r.protocol r.internal_port r.suggested_port r.suggested_ip r.lifetime

abbrev pub perform : Request → Client → Client × Outcome MapResponse
perform r c =
    request_mapping r.env r.protocol r.internal_port r.suggested_port r.suggested_ip r.lifetime c

abbrev pub run : List Request → Client → Client
run [] c = c
run (r ∷ rs) c = run rs (perform r c).0

-- The request is a delete of `k`, and the server confirms it.
pub record Deletes (k : MappingKey) (r : Request) (c : Client) : Type 0 where
  pub call : MapCall
  pub answer : MapResponse
  pub checked : prepared r c ≡ ok call
  pub named : call.key ≡ k
  pub zero_lifetime : call.lifetime_sec ≡ 0
  pub confirmed : (perform r c).1 ≡ ok answer

-- No delete of `k` is confirmed in the history.
abbrev pub Undeleted : MappingKey → List Request → Client → Type 0
Undeleted k [] c = Unit {0}
Undeleted k (r ∷ rs) c = (¬ Deletes k r c) × Undeleted k rs (perform r c).0

-- What comes of a request that presents the nonce `n`: sendRequest is given the MAP packet with `n` in
-- it, and what it returns is checked against `n`.
abbrev pub outcome_with : Bytes → Request → MapCall → Client → Outcome MapResponse
outcome_with n r call c = do
  req ←
      build_map_request call.local_ip n call.key.proto call.key.port call.suggested_port
        call.suggested_ip call.lifetime_sec
  resp ←
      with_prefix "send map request"
        (send_request (claim_nonce call (lock_mapping call.key c)) r.env.rounds req).0
  m ← with_prefix "parse map response" (parse_map_response resp)
  check_map_response call n m

-- A request for `k` that passes its checks presents the nonce `n`: whatever the network makes of the
-- packet, what comes of the request is what comes of the packet with `n`.
abbrev pub Presents : MappingKey → Bytes → Request → Client → Type 0
Presents k n r c =
    (call : MapCall)
    → prepared r c ≡ ok call
    → call.key ≡ k
    → (perform r c).1 ≡ outcome_with n r call c

abbrev pub AllPresent : MappingKey → Bytes → List Request → Client → Type 0
AllPresent k n [] c = Unit {0}
AllPresent k n (r ∷ rs) c = Presents k n r c × AllPresent k n rs (perform r c).0

stored_nonce :
    (k : MappingKey) (n : Bytes) (r : Request) (c : Client)
    → lookup k c.nonces ≡ some n
    → (call : MapCall) → call.key ≡ k
    → choose_nonce call c ≡ n
unfolding choose_nonce
stored_nonce k n r c h call named = rw (ap (λ j. lookup j c.nonces) named ∙ h, choose_nonce) refl

locked_map-outcome :
    (r : Request) (call : MapCall) (c : Client)
    → (locked_map r.env call c).1 ≡ outcome_with (choose_nonce call c) r call c
unfolding locked_map exchange map_request choose_nonce lock_mapping
locked_map-outcome r call c = elim (Outcome-cases (outcome_with (choose_nonce call c) r call c)) [
  | inl (m, e) ↦ rw (locked_map, e) refl
  | inr (inl (x, e)) ↦ rw (locked_map, e) refl
  | inr (inr e) ↦ rw (locked_map, e) refl
]

Presents-stored :
    (k : MappingKey) (n : Bytes) (r : Request) (c : Client)
    → lookup k c.nonces ≡ some n
    → Presents k n r c
unfolding request_mapping
Presents-stored k n r c h call e named =
    rw (e, request_mapping)
      (locked_map-outcome r call c
        ∙ ap (λ j. outcome_with j r call c) (stored_nonce k n r c h call named))

nonce_after-keeps :
    (call : MapCall) (k : MappingKey) (n : Bytes) (c : Client) (o : Outcome MapResponse)
    → lookup k c.nonces ≡ some n
    → (call.key ≡ k → choose_nonce call c ≡ n)
    → ((m : MapResponse) → call.key ≡ k → call.lifetime_sec ≡ 0 → o ≢ ok m)
    → nonce_after k call c o ≡ some n
nonce_after-keeps call k n c (ok m) h p d = ground (arith, key_eq_iff call.key k, p, d m)
nonce_after-keeps call k n c (err e) h p d = ground (arith, key_eq_iff call.key k, p)
nonce_after-keeps call k n c panic h p d = ground (arith, key_eq_iff call.key k, p)

locked_map-keeps :
    (env : Env) (call : MapCall) (k : MappingKey) (n : Bytes) (c : Client)
    → lookup k c.nonces ≡ some n
    → (call.key ≡ k → choose_nonce call c ≡ n)
    → ((m : MapResponse) → call.key ≡ k → call.lifetime_sec ≡ 0 → (locked_map env call c).1 ≢ ok m)
    → lookup k (locked_map env call c).0.nonces ≡ some n
locked_map-keeps env call k n c h p d =
    nonces-locked_map env call c k ∙ nonce_after-keeps call k n c (locked_map env call c).1 h p d

perform-keeps :
    (r : Request) (k : MappingKey) (n : Bytes) (c : Client)
    → lookup k c.nonces ≡ some n
    → ¬ Deletes k r c
    → lookup k (perform r c).0.nonces ≡ some n
unfolding request_mapping
perform-keeps r k n c h d = elim (Outcome-cases (prepared r c)) [
  | inl (call, e) ↦
      rw (e, request_mapping)
        (locked_map-keeps r.env call k n c h (stored_nonce k n r c h call)
          (λ m named zeros confirmed. d (record {
            call = call;
            answer = m;
            checked = e;
            named = named;
            zero_lifetime = zeros;
            confirmed = rw (e, request_mapping) confirmed;
          })))
  | inr (inl (x, e)) ↦ rw (e, request_mapping) h
  | inr (inr e) ↦ rw (e, request_mapping) h
]

-- Once a nonce is stored for a mapping, every later request for it (a renewal or a delete, after
-- lost answers and refusals too) sends the packet with that nonce, and checks the answer against it,
-- until a delete is confirmed, and until then the nonce stays stored.
pub run-nonce :
    (rs : List Request) (k : MappingKey) (n : Bytes) (c : Client)
    → lookup k c.nonces ≡ some n
    → Undeleted k rs c
    → AllPresent k n rs c × (lookup k (run rs c).nonces ≡ some n)
run-nonce [] k n c h u = (tt, h)
run-nonce (r ∷ rs) k n c h u =
    let kept = perform-keeps r k n c h u.0 in
    let (p, s) = run-nonce rs k n (perform r c).0 kept u.1 in ((Presents-stored k n r c h, p), s)
