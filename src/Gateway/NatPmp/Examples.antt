-- ===== src/Gateway/NatPmp/Examples.antt =====
-- The theorem on NAT-PMP at a gateway that has given a port away.
use go_nat.Base.{ℕ, suc, ◌≡◌, refl, [], ◌∷◌}
use go_nat.Base.Tests.{◌==◌, if◌then◌else◌}
use go_nat.Base.Int.{pos}
use go_nat.Base.Outcome.{foreign, ok, err}
use go_nat.Base.Assoc.{insert, delete}
use go_nat.Gateway.Upnp.{random_port}
use go_nat.Gateway.NatPmp.{NatPmpClient, NatPmp, add_port_mapping, try_random, delete_port_mapping}

-- The gateway counts its requests, and port 20000 is taken.
abbrev gateway : NatPmpClient ℕ
gateway = record {
  add_port_mapping = λ protocol i external seconds d.
      (suc d, if external == 20000 then err (foreign 4) else ok tt);
}

-- Port 20000 is cached for the internal port.
abbrev nat : NatPmp ℕ
nat = record { device = 0; gateway = 192 ∷ 168 ∷ 1 ∷ 1 ∷ []; ports = (pos 5000, 20000) ∷ [] }

abbrev draws : ℕ → ℕ
draws turn = 1234

another_port :
    add_port_mapping gateway "udp" (pos 5000) (pos 7200000000000) draws nat
    ≡ (record nat { device = 2; ports = (pos 5000, 11234) ∷ [] }, ok 11234)
unfolding add_port_mapping try_random random_port insert
another_port = refl

-- Deleting forgets the port and does not ask the gateway.
forgets : delete_port_mapping "udp" (pos 5000) nat ≡ (record nat { ports = [] }, ok tt)
unfolding delete_port_mapping delete
forgets = refl
