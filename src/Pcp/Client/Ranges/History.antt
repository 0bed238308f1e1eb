-- ===== src/Pcp/Client/Ranges/History.antt =====
-- A client's fields over a history of its operations.
use go_nat.Base.{ℕ, inl, inr, List, [], ◌∷◌}
use go_nat.Base.Tests.{Bool-cases}
use go_nat.Base.Lists.{All}
use go_nat.Base.Int.{pos}
use go_nat.Base.Outcome.{Outcome-cases}
use go_nat.Base.Bytes.{Bytes, IsByte}
use go_nat.Addr.{invalid, is_valid}
use go_nat.Pcp.Client.State.{Client, second, new_client, set_local_ip}
use go_nat.Pcp.Client.Epoch.{epoch_state_lost_of}
use go_nat.Pcp.Client.Mapping.{
  Env, request_mapping, add_port_mapping, delete_port_mapping, announce, ephemeral_port,
  get_external_address,
}
use go_nat.Pcp.Client.Mapping.Nonce.{Request, perform}
use go_nat.Pcp.Client.Ranges.{IsClient, GivesRanges, new_client-IsClient, set_local_ip-IsClient}
use go_nat.Pcp.Client.Ranges.Operations.{
  request_mapping-IsClient, announce-IsClient, epoch_state_lost_of-IsClient,
}

-- The operations that change the client, with what they meet: MAP requests (AddPortMapping,
-- AddPortMappingWithHint and DeletePortMapping), Announce, EpochStateLost and GetExternalAddress.
pub data Operation : Type 0 where
  maps : Request → Operation
  announces : Env → Operation
  reads_flag : Operation
  queries : ℕ → Env → Env → Operation

abbrev pub operate : Operation → Client → Client
operate (maps r) c = (perform r c).0
operate (announces env) c = (announce env c).0
operate reads_flag c = (epoch_state_lost_of c).0
operate (queries nanos env env') c = (get_external_address nanos env env' c).0

abbrev pub operate_all : List Operation → Client → Client
operate_all [] c = c
operate_all (o ∷ os) c = operate_all os (operate o c)

abbrev pub Gives : Operation → Type 0
Gives (maps r) = GivesRanges r.env
Gives (announces env) = GivesRanges env
Gives reads_flag = Unit {0}
Gives (queries nanos env env') = GivesRanges env × GivesRanges env'

get_external_address-IsClient :
    (nanos : ℕ) (env env' : Env) (c : Client)
    → GivesRanges env
    → GivesRanges env'
    → IsClient c
    → IsClient (get_external_address nanos env env' c).0
unfolding get_external_address add_port_mapping delete_port_mapping
get_external_address-IsClient nanos env env' c g g' w =
    let port = pos (ephemeral_port nanos) in
    let added = request_mapping env "udp" port port invalid (pos second) c in
    let kept = request_mapping-IsClient env g c w "udp" port port invalid (pos second) in
    elim (Bool-cases (is_valid c.external_ip)) [
      | inl v ↦ rw (v, get_external_address) w
      | inr v ↦ elim (Outcome-cases added.1) [
        | inl (m, h) ↦
            rw (v, get_external_address, h)
              (request_mapping-IsClient env' g' added.0 kept "udp" port (pos 0) invalid (pos 0))
        | inr (inl (x, h)) ↦ rw (v, get_external_address, h) kept
        | inr (inr h) ↦ rw (v, get_external_address, h) kept
      ]
    ]

operate-IsClient : (o : Operation) (c : Client) → Gives o → IsClient c → IsClient (operate o c)
operate-IsClient (maps r) c g w =
    request_mapping-IsClient r.env g c w r.protocol r.internal_port r.suggested_port r.suggested_ip
      r.lifetime
operate-IsClient (announces env) c g w = announce-IsClient env g c w
operate-IsClient reads_flag c g w = epoch_state_lost_of-IsClient c w
operate-IsClient (queries nanos env env') c (g, g') w =
    get_external_address-IsClient nanos env env' c g g' w

operate_all-keeps :
    (os : List Operation) (c : Client) → All Gives os → IsClient c → IsClient (operate_all os c)
operate_all-keeps [] c g w = w
operate_all-keeps (o ∷ os) c (g, gs) w =
    operate_all-keeps os (operate o c) gs (operate-IsClient o c g w)

-- From NewClient and SetLocalIP on any bytes, over any history of operations, every field of the client
-- stays in the range of its Go type: the addresses have 4 or 16 bytes, the epoch fits a uint32, and
-- every stored nonce has 12 bytes and belongs to a mapping of UDP or TCP with a port from 1 to 65535;
-- the sockets and the entropy source give bytes, the latter 12 of them.
pub operate_all-IsClient :
    (gateway local_ip : Bytes) (os : List Operation)
    → All IsByte gateway
    → All IsByte local_ip
    → All Gives os
    → IsClient (operate_all os (set_local_ip local_ip (new_client gateway)))
operate_all-IsClient gateway local_ip os h k g =
    operate_all-keeps os _ g
      (set_local_ip-IsClient local_ip (new_client gateway) k (new_client-IsClient gateway h))
