-- ===== src/Gateway/PcpIpv6/Examples.antt =====
-- The theorems on IPv6 pinholes at concrete NATs and clients.
use go_nat.Base.{ℕ, suc, ◌-◌, ◌≡◌, refl, ◌↔◌, ◌⊎◌, true, false, some, none, List, [], ◌∷◌, arith}
use go_nat.Base.Int.{pos}
use go_nat.Base.Outcome.{Error, foreign, ok, err}
use go_nat.Context.{caller, with_timeout, without_cancel}
use go_nat.Pcp.Client.Mapping.Server.{granted}
use go_nat.Pcp.Client.Examples.{client, call, grant, other_nonce, env_lost, env_server, two_hours}
use go_nat.Pcp.Nat.{World}
use go_nat.Gateway.PcpIpv6.{
  PcpIpv6Client, NatMethods, NatWithPcpIpv6, new_nat_with_pcp_ipv6, pinhole_timeout,
  add_port_mapping, check_server_health, finish_add, rollback_pinhole, set_ipv6_pinhole_error,
  type_of,
}
use go_nat.Gateway.PcpIpv6.BestEffort.{Returns, pinhole_report, add_port_mapping-best_effort}
use go_nat.Gateway.PcpIpv6.Health.{Fails, Restarted, Lost6, announcement6, check_server_health-both}
use go_nat.Gateway.PcpIpv6.DualStack.{pcp_dual_stack, SameNat, single}
use go_nat.Gateway.PcpIpv6.DualStack.History.{
  Call, adds, deletes, checks, run, call_pinholes, call_dual_stack, SameAnswers, run-dual_stack,
}

-- A client whose server grants everything, and that counts its pinholes.
abbrev counting : PcpIpv6Client ℕ
counting = record {
  add_port_mapping = λ ctx protocol i timeout c. (suc c, ok (granted grant call other_nonce));
  delete_port_mapping = λ ctx protocol i c. (c - 1, ok tt);
  announce = λ ctx c. (c, ok 7);
  epoch_state_lost = λ c. (c, true);
}

counting-Returns : Returns counting
counting-Returns = record {
  add_returns = λ ctx protocol i timeout c p. ground arith;
  delete_returns = λ ctx protocol i c p. ground arith;
}

-- A NAT that maps nothing, and counts what it is asked for.
abbrev refusing : NatMethods ℕ
refusing = record {
  nat_type = λ n. "UPNP (IG1-IP1)";
  add_port_mapping = λ ctx protocol i description timeout n. (suc n, err (foreign 3));
  delete_port_mapping = λ ctx protocol i n. (n, err (foreign 4));
  check_server_health = none;
}

abbrev fresh_nat : NatWithPcpIpv6 ℕ ℕ
fresh_nat = new_nat_with_pcp_ipv6 0 0

named : type_of refusing fresh_nat ≡ "UPNP (IG1-IP1)+PCPv6"
named = refl

add_port_mapping-best_effort_example :
    let (n', r') =
      add_port_mapping refusing counting caller "udp" (pos 5000) "" two_hours fresh_nat in
    (r' ≡ err (foreign 3))
    × (n'.nat ≡ 1)
    × (n'.pinhole_err
        ≡ pinhole_report
            (ok (granted grant call other_nonce))
            (err (foreign 3))
            (counting.delete_port_mapping
              (with_timeout pinhole_timeout (without_cancel caller))
              "udp"
              (pos 5000)
              1).1)
add_port_mapping-best_effort_example =
    add_port_mapping-best_effort refusing counting counting-Returns caller "udp" (pos 5000) ""
      two_hours fresh_nat (λ p. ground arith)

-- The pinhole was opened and closed again.
none_left :
    (add_port_mapping refusing counting caller "udp" (pos 5000) "" two_hours fresh_nat).0.pcp6 ≡ 0
unfolding add_port_mapping finish_add rollback_pinhole set_ipv6_pinhole_error
none_left = refl

-- The same NAT with a health check.
abbrev healthy : NatMethods ℕ
healthy = record refusing { check_server_health = some (λ ctx n. (n, ok (40, false))) }

check_server_health-both_example :
    let r = (check_server_health healthy counting caller fresh_nat).1 in
    (Fails r ↔ (
      Fails (ok (40, false))
      × ((e : Error) × ((announcement6 counting caller fresh_nat).1 ≡ err e))))
    × (Restarted r
        ↔ (Restarted (ok (40, false)) ⊎ Lost6 counting (announcement6 counting caller fresh_nat)))
check_server_health-both_example =
    check_server_health-both healthy counting caller fresh_nat (λ ctx n. (n, ok (40, false))) refl
      (λ p. ground arith) (λ p. ground arith)

-- The IPv4 server is silent, and the IPv6 server answers.
abbrev silent : World
silent ctx = env_lost

abbrev answering : World
answering ctx = env_server

-- A mapping of port 5000, a health check, and the deletion; the IPv4 server is never reached.
abbrev history : List Call
history =
    adds silent answering caller "udp" (pos 5000) "web" two_hours
    ∷ checks silent answering caller
    ∷ deletes silent answering caller "udp" (pos 5000)
    ∷ []

run-dual_stack_example :
    let (n, xs) = run call_pinholes history (new_nat_with_pcp_ipv6 (single client) client) in
    let (d, ys) = run call_dual_stack history (pcp_dual_stack client client none) in
    SameAnswers xs ys × SameNat n d
run-dual_stack_example = run-dual_stack history client client
