-- ===== src/Pcp/Client/Examples/Fields.antt =====
-- The fields of a client over a history in which a mapping is made, renewed and lost.
use go_nat.Base.{◌≡◌, refl, subst, Bool, true, ◌&&◌, List, [], ◌∷◌, arith}
use go_nat.Base.Tests.{ltb}
use go_nat.Base.Lists.{All, replicate, length}
use go_nat.Base.Int.{pos}
use go_nat.Base.Outcome.{ok}
use go_nat.Base.Bytes.{Bytes, IsByte}
use go_nat.Addr.{invalid, v4}
use go_nat.Pcp.Protocol.RoundTrip.{response_packet}
use go_nat.Pcp.Client.State.{mapping_key_eq, new_client, set_local_ip}
use go_nat.Pcp.Client.Mapping.{Env}
use go_nat.Pcp.Client.Mapping.Nonce.{Request}
use go_nat.Pcp.Client.Ranges.{IsClient, GivesRanges}
use go_nat.Pcp.Client.Ranges.History.{
  Operation, maps, announces, reads_flag, queries, operate_all, operate_all-IsClient,
}
use go_nat.Pcp.Client.Examples.{nonce, other_nonce, env_lost, round, two_hours}

abbrev all_bytes : Bytes → Bool
all_bytes [] = true
all_bytes (x ∷ xs) = ltb x 256 && all_bytes xs

all_bytes_lem : (xs : Bytes) → all_bytes xs ≡ true → All IsByte xs
all_bytes_lem [] h = tt
all_bytes_lem (x ∷ xs) h = ground (arith, all_bytes_lem xs)

-- A server that grants UDP port 5000 for the fresh nonce.
abbrev packet : Bytes
packet =
    response_packet 0x81 0 0 7200 99 (replicate 12 0) nonce 17 5000 6000
      (v4 (203 ∷ 0 ∷ 113 ∷ 7 ∷ [])) []

abbrev env_packet : Env
env_packet = record {
  entropy = ok nonce;
  rounds = λ k. round (λ addr req t. ok (packet, addr.ip));
  now = 50;
}

env_packet-GivesRanges : GivesRanges env_packet
env_packet-GivesRanges = record {
  socket_bytes = λ k addr req t datagram source h.
      let e : packet ≡ datagram = cc in subst (All IsByte) e (all_bytes_lem packet refl);
  entropy_bytes = λ b h.
      let e : nonce ≡ b = cc in
      subst (λ x. (length x ≡ 12) × All IsByte x) e (refl, all_bytes_lem nonce refl);
}

env_lost-GivesRanges : GivesRanges env_lost
env_lost-GivesRanges = record {
  socket_bytes = λ k addr req t datagram source h. cc;
  entropy_bytes = λ b h.
      let e : other_nonce ≡ b = cc in
      subst (λ x. (length x ≡ 12) × All IsByte x) e (refl, all_bytes_lem other_nonce refl);
}

abbrev mapping : Env → Request
mapping env = record {
  env = env;
  protocol = "udp";
  internal_port = pos 5000;
  suggested_port = pos 5000;
  suggested_ip = invalid;
  lifetime = two_hours;
}

abbrev history : List Operation
history =
    maps (mapping env_packet)
    ∷ maps (mapping env_lost)
    ∷ reads_flag
    ∷ announces env_packet
    ∷ queries 1000 env_packet env_lost
    ∷ []

abbrev gateway : Bytes
gateway = 192 ∷ 168 ∷ 1 ∷ 1 ∷ []

abbrev local_ip : Bytes
local_ip = 192 ∷ 168 ∷ 1 ∷ 2 ∷ []

operate_all-IsClient_example :
    IsClient (operate_all history (set_local_ip local_ip (new_client gateway)))
operate_all-IsClient_example =
    operate_all-IsClient gateway local_ip history (all_bytes_lem gateway refl)
      (all_bytes_lem local_ip refl)
      (
        env_packet-GivesRanges,
        (
          env_lost-GivesRanges,
          (tt, (env_packet-GivesRanges, ((env_packet-GivesRanges, env_lost-GivesRanges), tt))),
        ),
      )
