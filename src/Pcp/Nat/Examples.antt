-- ===== src/Pcp/Nat/Examples.antt =====
-- The theorems on the dual-stack NAT at concrete servers.
use go_nat.Base.{ℕ, ◌≡◌, refl, ◌↔◌, ◌⊎◌, false, some, none}
use go_nat.Base.Int.{pos}
use go_nat.Base.Outcome.{foreign, wrap, Outcome, ok, err}
use go_nat.Context.{caller}
use go_nat.Pcp.Protocol.{MapResponse}
use go_nat.Pcp.Client.State.{Client}
use go_nat.Base.Bytes.{put, put_slice}
use go_nat.Base.Assoc.{insert}
use go_nat.Pcp.Protocol.{
  build_map_request, suggested_or_unspecified, addr_to_16, addr_from_16, parse_map_response,
  parse_response, read_map_fields,
}
use go_nat.Pcp.Client.State.{get_local_ip, lock_mapping, unlock_mapping}
use go_nat.Pcp.Client.Epoch.{update_epoch}
use go_nat.Pcp.Client.Transport.{
  own_timeout, accept_datagram, converse, within_deadline, send_once, next_attempt, last_attempt,
  send_loop, send_request,
}
use go_nat.Pcp.Client.Mapping.{
  MapCall, protocol_number, lifetime_seconds, prepare, choose_nonce, claim_nonce, map_request,
  check_map_response, exchange, cache_external_ip, commit, locked_map, request_mapping,
  add_port_mapping, announce,
}
use go_nat.Pcp.Client.Mapping.Server.{granted}
use go_nat.Pcp.Client.Examples.{client, call, grant, other_nonce, env_lost, env_server, two_hours}
use go_nat.Pcp.Nat.{World, Nat, add_mapping, ipv6_pinhole_error}
use go_nat.Pcp.Nat.Servers.{check_server_health}
use go_nat.Pcp.Nat.Add.{
  CalmWorld, mapped, pinhole, ipv4, rollback, rollback_report, add_mapping-best_effort,
  add_mapping-rollback,
}
use go_nat.Pcp.Nat.Health.{
  Fails, Flagged, Lost, health4, health6, check_server_health-dual, check_server_health-clears,
}

-- The IPv4 server is silent, and the IPv6 server answers.
abbrev silent : World
silent ctx = env_lost

abbrev answering : World
answering ctx = env_server

calm_silent : CalmWorld silent
calm_silent ctx = record { calm_entropy = λ p. cc; calm_read = λ k addr req t p. cc }

calm_answering : CalmWorld answering
calm_answering ctx = record { calm_entropy = λ p. cc; calm_read = λ k addr req t p. cc }

-- The request as the IPv6 client has prepared it.
abbrev six_call : MapCall
six_call = call

abbrev dual : Nat
dual = record { client = some client; client6 = some client; pinhole_err = none }

abbrev after_add : Nat × Outcome ℕ
after_add = add_mapping silent answering caller "udp" (pos 5000) two_hours dual

abbrev the_pinhole : Client × Outcome MapResponse
the_pinhole = pinhole answering caller "udp" (pos 5000) two_hours client

abbrev the_mapping : Client × Outcome MapResponse
the_mapping = ipv4 silent caller "udp" (pos 5000) two_hours client

add_mapping-best_effort_example :
    (after_add.1 ≡ mapped the_mapping.1)
    × ((ipv6_pinhole_error after_add.0 ≡ none) ↔ (
        ((m6 : MapResponse) × (the_pinhole.1 ≡ ok m6))
        × ((m : MapResponse) × (the_mapping.1 ≡ ok m))))
add_mapping-best_effort_example =
    add_mapping-best_effort silent answering caller "udp" (pos 5000) two_hours dual client client
      calm_silent calm_answering refl refl

the_pinhole_opened : the_pinhole.1 ≡ ok (granted grant six_call other_nonce)
unfolding add_port_mapping request_mapping prepare get_local_ip protocol_number lifetime_seconds
    locked_map lock_mapping unlock_mapping choose_nonce claim_nonce exchange send_request send_loop
    next_attempt last_attempt send_once within_deadline converse accept_datagram map_request insert
    put put_slice commit update_epoch cache_external_ip check_map_response build_map_request
    suggested_or_unspecified addr_to_16 parse_map_response parse_response read_map_fields
    own_timeout addr_from_16
the_pinhole_opened = refl

the_mapping_failed :
    the_mapping.1
    ≡ err (
        wrap "send map request"
          (wrap "PCP request failed after 4 retries" (wrap "read" (foreign 1))))
unfolding add_port_mapping request_mapping prepare get_local_ip protocol_number lifetime_seconds
    locked_map lock_mapping unlock_mapping choose_nonce claim_nonce exchange send_request send_loop
    next_attempt last_attempt send_once within_deadline converse accept_datagram map_request insert
    put put_slice build_map_request
the_mapping_failed = refl

-- The IPv4 mapping fails, and the pinhole that was opened is closed again.
add_mapping-rollback_example :
    (after_add.0.client6 ≡ some (rollback answering caller "udp" (pos 5000) two_hours client).0)
    × (ipv6_pinhole_error after_add.0
        ≡ rollback_report (rollback answering caller "udp" (pos 5000) two_hours client).1)
add_mapping-rollback_example =
    add_mapping-rollback silent answering caller "udp" (pos 5000) two_hours dual client client
      calm_silent calm_answering refl refl (granted grant six_call other_nonce) _ the_pinhole_opened
      the_mapping_failed

check_server_health-dual_example :
    (Fails (check_server_health silent answering caller dual).1
      ↔ (Fails (announce env_lost client).1 × Fails (announce env_server client).1))
    × (Flagged (check_server_health silent answering caller dual).1
        ↔ (Lost (announce env_lost client) ⊎ Lost (announce env_server client)))
check_server_health-dual_example =
    check_server_health-dual silent answering caller dual client client calm_silent calm_answering
      refl refl

check_server_health-clears_example :
    let n' = (check_server_health silent answering caller dual).0 in
    (Fails (health4 silent caller client).1
      ⊎ ((d : Client) × (n'.client ≡ some d) × (d.epoch_state_lost ≡ false)))
    × (Fails (health6 answering caller client).1
        ⊎ ((d : Client) × (n'.client6 ≡ some d) × (d.epoch_state_lost ≡ false)))
check_server_health-clears_example =
    check_server_health-clears silent answering caller dual client client calm_silent calm_answering
      refl refl
