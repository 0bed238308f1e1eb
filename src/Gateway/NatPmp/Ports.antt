-- ===== src/Gateway/NatPmp/Ports.antt =====
-- The ports that natpmpNAT answers and keeps: they stay in the range of randomPort.
use go_nat.Base.{ℕ, ◌≤◌, ◌<◌, ◌≡◌, some, String, List}
use go_nat.Base.Int.{ℤ}
use go_nat.Base.Outcome.{Outcome, ok, err, panic}
use go_nat.Base.Assoc.{lookup}
use go_nat.Gateway.NatPmp.{NatPmpClient, NatPmp, port_eq, add_port_mapping}

abbrev pub InRange : ℕ → Type 0
InRange port = (10000 ≤ port) × (port < 65535)

-- Every cached port is one that randomPort can give.
abbrev pub IsCache : List (ℤ × ℕ) → Type 0
IsCache ports = (i : ℤ) (port : ℕ) → lookup i ports ≡ some port → InRange port

-- What AddPortMapping has done: the cache keeps its range, and a port was granted by the gateway for
-- this call, lies in the range, and is cached.
module _ {D : Type 0} (client : NatPmpClient D) (protocol : String) (i seconds : ℤ) where
  abbrev pub Added : NatPmp D × Outcome ℕ → Type 0
  Added (n, ok port) =
      IsCache n.ports
      × InRange port
      × (lookup i n.ports ≡ some port)
      × ((d : D) × (client.add_port_mapping protocol i port seconds d ≡ (n.device, ok tt)))
  Added (n, err e) =
      IsCache n.ports
      × ((d : D) × (port : ℕ) × (client.add_port_mapping protocol i port seconds d
            ≡ (n.device, err e)))
  Added (n, panic) = IsCache n.ports
