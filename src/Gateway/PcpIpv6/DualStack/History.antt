-- ===== src/Gateway/PcpIpv6/DualStack/History.antt =====
-- A history of calls on natWithPCPIPv6 around the IPv4 NAT of package pcp, and on that package's NAT.
use go_nat.Base.{ℕ, ◌≡◌, refl, ap, ◌⊎◌, inl, inr, Bool, Option, none, String, List, [], ◌∷◌}
use go_nat.Base.Int.{ℤ}
use go_nat.Base.Outcome.{Error, Outcome, ok, err, panic, with_prefix}
use go_nat.Context.{Context}
use go_nat.Pcp.Client.State.{Client}
use go_nat.Pcp.Nat
use go_nat.Pcp.Nat.Delete
use go_nat.Pcp.Nat.Servers
use go_nat.Pcp.Nat.{World, Nat}
use go_nat.Gateway.PcpIpv6.{
  NatWithPcpIpv6, new_nat_with_pcp_ipv6, announced, add_port_mapping, delete_port_mapping,
  check_with, check_server_health, combine_health,
}
use go_nat.Gateway.PcpIpv6.Health.{Fails}
use go_nat.Gateway.PcpIpv6.DualStack.{
  pcp_client, pcp_nat, pcp_dual_stack, with_pinholes, SameReport, SameNat, single,
  add_port_mapping-dual_stack, delete_port_mapping-dual_stack,
}

-- Equal, or both errors: the two packages word the error of two silent servers differently.
abbrev pub SameHealth : Outcome (ℕ × Bool) → Outcome (ℕ × Bool) → Type 0
SameHealth r r' = (r ≡ r') ⊎ (Fails r × Fails r')

combine_health-same :
    (r r6 : Outcome (ℕ × Bool))
    → SameHealth (combine_health (with_prefix "announce" r) r6) (Servers.combine_health r r6)
combine_health-same (ok (p, b)) (ok (p6, b6)) = inl refl
combine_health-same (ok (p, b)) (err e6) = inl refl
combine_health-same (err e) (ok (p6, b6)) = inl refl
combine_health-same (err e) (err e6) = inr ((_, refl), (_, refl))
combine_health-same panic r6 = inl refl
combine_health-same (ok (p, b)) panic = inl refl
combine_health-same (err e) panic = inl refl

module _ (w4 w6 : World) (ctx : Context) where
  check_server_health-dual_stack :
      (c c6 : Client) (e e' : Option Error)
      → SameReport e e'
      → let (n, r) =
          check_server_health (pcp_nat w4 w6) (pcp_client w6) ctx (with_pinholes c c6 e) in
        let (d, r') = Servers.check_server_health w4 w6 ctx (pcp_dual_stack c c6 e') in
        SameHealth r r' × SameNat n d
  unfolding check_server_health check_with announced Servers.check_server_health Servers.check_both
      Servers.check_one Servers.announced
  check_server_health-dual_stack c c6 e e' same =
      (combine_health-same _ _, (_, _, e, e', refl, refl, same))

-- A call, with the worlds that the two clients meet in it.
pub data Call : Type 0 where
  adds : World → World → Context → String → ℤ → String → ℤ → Call
  deletes : World → World → Context → String → ℤ → Call
  checks : World → World → Context → Call

pub data Answer : Type 0 where
  port : Outcome ℕ → Answer
  done : Outcome (Unit {0}) → Answer
  health : Outcome (ℕ × Bool) → Answer

abbrev pub answer_with {ℓ} : {S : Type 0} {A : Type ℓ} → (A → Answer) → S × A → S × Answer
answer_with f (s, a) = (s, f a)

unfoldable pub call_pinholes : Call → NatWithPcpIpv6 Nat Client → NatWithPcpIpv6 Nat Client × Answer
call_pinholes (adds w4 w6 ctx protocol i description timeout) n =
    answer_with port
      (add_port_mapping (pcp_nat w4 w6) (pcp_client w6) ctx protocol i description timeout n)
call_pinholes (deletes w4 w6 ctx protocol i) n =
    answer_with done (delete_port_mapping (pcp_nat w4 w6) (pcp_client w6) ctx protocol i n)
call_pinholes (checks w4 w6 ctx) n =
    answer_with health (check_server_health (pcp_nat w4 w6) (pcp_client w6) ctx n)

unfoldable pub call_dual_stack : Call → Nat → Nat × Answer
call_dual_stack (adds w4 w6 ctx protocol i description timeout) d =
    answer_with port (Nat.add_mapping w4 w6 ctx protocol i timeout d)
call_dual_stack (deletes w4 w6 ctx protocol i) d =
    answer_with done (Delete.delete_mapping w4 w6 ctx protocol i d)
call_dual_stack (checks w4 w6 ctx) d = answer_with health (Servers.check_server_health w4 w6 ctx d)

-- The calls one after the other, each on what the one before left.
abbrev pub run {ℓ} : {S : Type ℓ} → (Call → S → S × Answer) → List Call → S → S × List Answer
run call [] s = (s, [])
run call (c ∷ cs) s =
    let (s', answer) = call c s in let (s'', answers) = run call cs s' in (s'', answer ∷ answers)

abbrev pub SameAnswer : Answer → Answer → Type 0
SameAnswer (health r) (health r') = SameHealth r r'
SameAnswer a b = a ≡ b

abbrev pub SameAnswers : List Answer → List Answer → Type 0
SameAnswers [] [] = Unit {0}
SameAnswers (a ∷ xs) (b ∷ ys) = SameAnswer a b × SameAnswers xs ys
SameAnswers [] (b ∷ ys) = ⊥
SameAnswers (a ∷ xs) [] = ⊥

call-same :
    (call : Call) (c c6 : Client) (e e' : Option Error)
    → SameReport e e'
    → let (n, a) = call_pinholes call (with_pinholes c c6 e) in
      let (d, b) = call_dual_stack call (pcp_dual_stack c c6 e') in SameAnswer a b × SameNat n d
unfolding call_pinholes call_dual_stack
call-same (adds w4 w6 ctx protocol i description timeout) c c6 e e' same =
    let (r, s) =
      add_port_mapping-dual_stack w4 w6 ctx protocol i description timeout c c6 e e' same in
    (ap port r, s)
call-same (deletes w4 w6 ctx protocol i) c c6 e e' same =
    let (r, s) = delete_port_mapping-dual_stack w4 w6 ctx protocol i c c6 e e' same in
    (ap done r, s)
call-same (checks w4 w6 ctx) c c6 e e' same =
    check_server_health-dual_stack w4 w6 ctx c c6 e e' same

run-SameNat :
    (calls : List Call) (n : NatWithPcpIpv6 Nat Client) (d : Nat)
    → SameNat n d
    → let (n', xs) = run call_pinholes calls n in
      let (d', ys) = run call_dual_stack calls d in SameAnswers xs ys × SameNat n' d'
run-SameNat [] n d same = (tt, same)
run-SameNat (call ∷ calls) n d (c, c6, e, e', p, q, same) =
    rw (p, q)
      (let (a, s) = call-same call c c6 e e' same in
        let (xs, s') = run-SameNat calls _ _ s in ((a, xs), s'))

-- Over any history of AddPortMapping, DeletePortMapping and CheckServerHealth, from a new
-- natWithPCPIPv6 around the IPv4 NAT of package pcp, it gives the answers of that package's own
-- dual-stack NAT, but for the text of a health check's error, and it leaves the same clients and the
-- same IPv6PinholeError, but for the package that its sentinel belongs to.
pub run-dual_stack :
    (calls : List Call) (c c6 : Client)
    → let (n, xs) = run call_pinholes calls (new_nat_with_pcp_ipv6 (single c) c6) in
      let (d, ys) = run call_dual_stack calls (pcp_dual_stack c c6 none) in
      SameAnswers xs ys × SameNat n d
run-dual_stack calls c c6 = run-SameNat calls _ _ (c, c6, none, none, refl, refl, inl refl)
