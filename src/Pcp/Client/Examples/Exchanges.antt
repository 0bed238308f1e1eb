-- ===== src/Pcp/Client/Examples/Exchanges.antt =====
-- The theorems on one exchange, and on one MAP operation, at concrete inputs.
use go_nat.Base.{◌*◌, ◌≤◌, ◌<◌, ◌≡◌, refl, false, none, ◌≢◌, ◌⊎◌, [], arith}
use go_nat.Base.Lists.{length}
use go_nat.Base.Int.{pos}
use go_nat.Base.Outcome.{foreign, wrap, ok, err}
use go_nat.Base.Bytes.{Bytes}
use go_nat.Base.Assoc.{lookup}
use go_nat.Addr.{invalid, is_valid, as_slice}
use go_nat.Pcp.Client.State.{MappingKey, mapping_key_eq, second, get_local_ip}
use go_nat.Pcp.Client.Transport.{
  accept_datagram, converse, within_deadline, send_once, next_attempt, last_attempt, send_loop,
  send_request, server_addr, gave_up,
}
use go_nat.Pcp.Client.Transport.Once.{FromServer, PastDeadline, send_once-ok}
use go_nat.Pcp.Client.Transport.Retry.{Backoff, send_request-Backoff}
use go_nat.Pcp.Client.Transport.Answer.{FailsFrom, send_request-first, send_request-err}
use go_nat.Pcp.Client.Mapping.{
  MapCall, protocol_number, lifetime_seconds, prepare, choose_nonce, locked_map, request_mapping,
  ephemeral_port, get_external_address,
}
use go_nat.Pcp.Client.Mapping.ExternalAddress.{udp_key, added, deleted, get_external_address-frame}
use go_nat.Pcp.Protocol.{MapResponse}
use go_nat.Pcp.Client.Mapping.Frame.{
  nonce_after, nonces-locked_map, IsUnlocked, SameSetup, request_mapping-frame,
}
use go_nat.Pcp.Client.Mapping.Accept.{Accepted, request_mapping-Accepted}
use go_nat.Pcp.Client.Mapping.Server.{IsGrant, ReachesServer, granted, serve, request_mapping-serve}
use go_nat.Pcp.Client.Examples.{
  client, mapped_client, key, nonce, attempt, grant, lost, answered, env_lost, env_server,
  env_second, first_lost, call, two_hours,
}

prepared_call :
    prepare mapped_client env_second.entropy "udp" (pos 5000) (pos 5000) invalid two_hours ≡ ok call
unfolding prepare get_local_ip protocol_number lifetime_seconds
prepared_call = refl

send_once-ok_example :
    FromServer (attempt answered) (server_addr client) [] (serve grant [])
    ⊎ (PastDeadline (attempt answered) × (serve grant [] ≡ []))
unfolding send_once within_deadline converse accept_datagram
send_once-ok_example =
    send_once-ok client (attempt answered) (server_addr client) [] (serve grant []) refl

send_request-Backoff_example :
    Backoff (3 * second) (send_request client env_lost.rounds []).1
    × (length (send_request client env_lost.rounds []).1 ≤ 3)
send_request-Backoff_example = send_request-Backoff client env_lost.rounds [] (λ k. omega arith)

send_once-lost :
    send_once client (attempt lost) (server_addr client) [] ≡ err (wrap "read" (foreign 1))
unfolding send_once within_deadline converse accept_datagram
send_once-lost = refl

send_request-first_example : (send_request client first_lost []).0 ≡ ok (serve grant [])
unfolding send_once within_deadline converse accept_datagram
send_request-first_example =
    send_request-first client first_lost [] refl 1 (serve grant []) (omega arith)
      (record { error = wrap "read" (foreign 1); failed = refl; going = refl; waited = refl }, tt)
      refl

send_request-err_example :
    FailsFrom client env_lost.rounds (server_addr client) [] 0 3 (gave_up (wrap "read" (foreign 1)))
unfolding send_request send_loop next_attempt last_attempt send_once within_deadline converse
    accept_datagram
send_request-err_example = send_request-err client env_lost.rounds [] refl _ refl

nonces-locked_map_example :
    lookup key (locked_map env_lost call client).0.nonces
    ≡ nonce_after key call client (locked_map env_lost call client).1
nonces-locked_map_example = nonces-locked_map env_lost call client key

unlocked : IsUnlocked mapped_client
unlocked j = λ p. ground arith

request_mapping-frame_example :
    let d =
      (request_mapping env_lost "udp" (pos 5000) (pos 5000) invalid two_hours mapped_client).0 in
    IsUnlocked d × SameSetup mapped_client d
request_mapping-frame_example =
    request_mapping-frame env_lost "udp" (pos 5000) (pos 5000) invalid two_hours mapped_client
      unlocked

is_grant : IsGrant grant
is_grant = record {
  lifetime_fits = omega arith;
  epoch_fits = omega arith;
  port_fits = omega arith;
  addressed = omega arith;
  reserved_size = refl;
}

reaches : ReachesServer grant (attempt answered)
reaches = record {
  started = refl;
  listening = refl;
  unlimited = refl;
  armed = λ t. refl;
  written = λ addr req. refl;
  answered = λ addr req t. refl;
}

-- A renewal whose first packet is lost: the stored nonce is presented, and the port is the server's.
request_mapping-serve_example :
    (request_mapping env_second "udp" (pos 5000) (pos 5000) invalid two_hours mapped_client).1
    ≡ ok (granted grant call nonce)
unfolding send_once within_deadline converse accept_datagram choose_nonce
request_mapping-serve_example =
    request_mapping-serve env_second "udp" (pos 5000) (pos 5000) invalid two_hours mapped_client
      call grant 1 prepared_call
      (record {
        local = omega arith;
        suggested = omega arith;
        port_fits = omega arith;
        nonce_size = refl;
      })
      is_grant refl (omega arith)
      (record { error = wrap "read" (foreign 1); failed = refl; going = refl; waited = refl }, tt)
      reaches

request_mapping-Accepted_example :
    (c : MapCall) × (prepare mapped_client env_second.entropy "udp"
        (pos 5000)
        (pos 5000)
        invalid
        two_hours
      ≡ ok c)
    × Accepted env_second c mapped_client (granted grant call nonce)
request_mapping-Accepted_example =
    request_mapping-Accepted env_second "udp" (pos 5000) (pos 5000) invalid two_hours mapped_client
      (granted grant call nonce) request_mapping-serve_example

-- Half a second is sent as the default of two hours, and not as a delete.
half_second : lifetime_seconds (pos 500000000) ≡ 7200
unfolding lifetime_seconds
half_second = refl

-- The temporary mapping is of port 50152.
get_external_address-frame_example :
    let (d, r) = get_external_address 1000 env_server env_server client in
    (49152 ≤ ephemeral_port 1000)
    × (ephemeral_port 1000 < 65535)
    × ((j : MappingKey)
        → udp_key (ephemeral_port 1000) ≢ j
        → lookup j d.nonces ≡ lookup j client.nonces)
    × ((m : MapResponse)
        → is_valid client.external_ip ≡ false
        → (added 1000 env_server env_server client).1 ≡ ok m
        → (r ≡ ok (as_slice m.external_ip))
          × ((deleted 1000 env_server env_server client).1 ≡ ok tt
              → lookup (udp_key (ephemeral_port 1000)) d.nonces ≡ none))
get_external_address-frame_example = get_external_address-frame 1000 env_server env_server client
