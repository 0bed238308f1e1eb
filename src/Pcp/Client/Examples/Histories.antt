-- ===== src/Pcp/Client/Examples/Histories.antt =====
-- The theorems on histories of one client, at concrete ones.
use go_nat.Base.{ℕ, ◌*◌, ◌≡◌, refl, true, false, some, List, [], ◌∷◌, arith}
use go_nat.Base.Int.{pos}
use go_nat.Base.Outcome.{foreign, wrap, ok, err}
use go_nat.Base.Bytes.{put, put_slice}
use go_nat.Base.Assoc.{lookup, insert}
use go_nat.Addr.{invalid}
use go_nat.Pcp.Protocol.{build_map_request}
use go_nat.Pcp.Client.State.{
  Client, mapping_key_eq, second, get_local_ip, lock_mapping, unlock_mapping,
}
use go_nat.Pcp.Client.Epoch.{
  update_epoch, epoch_state_lost_of, loses_state, out_of_step, seconds_since, epoch_delta,
}
use go_nat.Pcp.Client.Epoch.Drift.{
  update_epoch-steady, update_epoch-restart, record_answers, any_loss, epoch_state_lost_of-history,
}
use go_nat.Pcp.Client.Transport.{
  accept_datagram, converse, within_deadline, send_once, next_attempt, last_attempt, send_loop,
  send_request,
}
use go_nat.Pcp.Client.Mapping.{
  MapCall, protocol_number, lifetime_seconds, prepare, choose_nonce, claim_nonce, map_request,
  exchange, locked_map, request_mapping,
}
use go_nat.Pcp.Client.Mapping.Nonce.{
  Request, prepared, perform, run, Deletes, AllPresent, run-nonce,
}
use go_nat.Pcp.Client.Examples.{client, mapped_client, key, nonce, env_lost, two_hours}

abbrev renewal : Request
renewal = record {
  env = env_lost;
  protocol = "udp";
  internal_port = pos 5000;
  suggested_port = pos 5000;
  suggested_ip = invalid;
  lifetime = two_hours;
}

abbrev deletion : Request
deletion = record renewal { lifetime = pos 0; suggested_port = pos 0 }

renewal_lifetime : (c : MapCall) → prepared renewal mapped_client ≡ ok c → c.lifetime_sec ≡ 7200
unfolding prepare get_local_ip protocol_number lifetime_seconds
renewal_lifetime c h = cc

abbrev after_renewal : Client
after_renewal = (perform renewal mapped_client).0

deletion_lost :
    (perform deletion after_renewal).1
    ≡ err (
        wrap "send map request"
          (wrap "PCP request failed after 4 retries" (wrap "read" (foreign 1))))
unfolding request_mapping prepare get_local_ip protocol_number lifetime_seconds locked_map
    lock_mapping unlock_mapping choose_nonce claim_nonce exchange send_request send_loop
    next_attempt last_attempt send_once within_deadline converse accept_datagram map_request insert
    put put_slice build_map_request
deletion_lost = refl

not_renewal : ¬ Deletes key renewal mapped_client
not_renewal d = absurd (omega (arith, renewal_lifetime d.call d.checked, d.zero_lifetime))

not_deletion : ¬ Deletes key deletion after_renewal
not_deletion d = cc (deletion_lost, d.confirmed)

-- A renewal and a delete are lost; both present the nonce that the mapping was created with.
run-nonce_example :
    AllPresent key nonce (renewal ∷ deletion ∷ []) mapped_client
    × (lookup key (run (renewal ∷ deletion ∷ []) mapped_client).nonces ≡ some nonce)
run-nonce_example =
    run-nonce (renewal ∷ deletion ∷ []) key nonce mapped_client refl
      (not_renewal, (not_deletion, tt))

-- The server answered with epoch 1000 at second 50.
abbrev observed : Client
observed = record client { last_epoch = 1000; epoch_time = some (50 * second) }

update_epoch-steady_example :
    ((update_epoch (110 * second) 1059 observed).1 ≡ false)
    × ((update_epoch (110 * second) 1059 observed).0.epoch_state_lost ≡ false)
update_epoch-steady_example =
    update_epoch-steady observed (50 * second) (110 * second) 1059 refl (omega arith) (omega arith)
      (omega arith) (omega arith) (omega arith) (omega arith)

update_epoch-restart_example :
    ((update_epoch (110 * second) 5 observed).1 ≡ true)
    × ((update_epoch (110 * second) 5 observed).0.epoch_state_lost ≡ true)
update_epoch-restart_example =
    update_epoch-restart observed (50 * second) (110 * second) 5 refl (omega arith) (omega arith)
      (omega arith) (omega arith)

-- A restart followed by good answers is still reported, once.
abbrev restart_history : List (ℕ × ℕ)
restart_history = (110 * second, 5) ∷ (120 * second, 15) ∷ []

restart_found : any_loss restart_history observed ≡ true
unfolding loses_state out_of_step seconds_since epoch_delta update_epoch
restart_found = refl

epoch_state_lost_of-history_example :
    ((epoch_state_lost_of (record_answers restart_history observed)).1
      ≡ any_loss restart_history observed)
    × ((epoch_state_lost_of (epoch_state_lost_of (record_answers restart_history observed)).0).1
        ≡ false)
epoch_state_lost_of-history_example = epoch_state_lost_of-history restart_history observed refl
