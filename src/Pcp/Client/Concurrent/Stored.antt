-- ===== src/Pcp/Client/Concurrent/Stored.antt =====
-- The nonces that a task relies on: which changes of the client and of the server leave them alone.
use go_nat.Base.{ℕ, false, ◌≡◌, refl, sym, ◌∙◌, inl, inr, some, none, arith}
use go_nat.Base.Tests.{ltb, ◌==◌, if◌then◌else◌, Bool-cases}
use go_nat.Base.Bytes.{Bytes}
use go_nat.Base.Assoc.{lookup, lookup-insert}
use go_nat.Pcp.Client.State.{Client, MappingKey, mapping_key_eq, key_eq, key_eq_iff}
use go_nat.Pcp.Client.Mapping.{MapCall, choose_nonce, claim_nonce}
use go_nat.Pcp.Client.Concurrent.{
  Task, idle, waiting, locked, sent, served, answered, leaving, finished, Table, set_entry,
  granted_entry, update,
}
use go_nat.Pcp.Client.Concurrent.Invariant.{held, Stored, Gone, Relies}

pub claim_nonce-nonces :
    (call : MapCall) (c : Client) (j : MappingKey)
    → lookup j (claim_nonce call c).nonces ≡ (
        if key_eq call.key j
        then (if ltb 0 call.lifetime_sec then some (choose_nonce call c) else lookup j c.nonces)
        else lookup j c.nonces)
unfolding claim_nonce
claim_nonce-nonces call c j =
    ground (arith, lookup-insert call.key j (choose_nonce call c) c.nonces)

pub choose_nonce-stored :
    (call : MapCall) (c : Client) (n : Bytes)
    → lookup call.key c.nonces ≡ some n
    → choose_nonce call c ≡ n
unfolding choose_nonce
choose_nonce-stored call c n h = rw (choose_nonce, h) refl

pub Stored-frame :
    (c c' : Client) (call : MapCall) (nonce : Bytes)
    → lookup call.key c'.nonces ≡ lookup call.key c.nonces
    → Stored c call nonce
    → Stored c' call nonce
Stored-frame c c' call nonce e (stored, only) = (λ h. e ∙ stored h, λ n h. only n (sym e ∙ h))

-- A task relies only on the entries of its own mapping.
pub Relies-frame :
    (c c' : Client) (t t' : Table) (p : Task)
    → ((k : MappingKey) → held p ≡ some k → lookup k c'.nonces ≡ lookup k c.nonces)
    → ((k : MappingKey) → held p ≡ some k → t k ≡ none → t' k ≡ none)
    → Relies c t p
    → Relies c' t' p
Relies-frame c c' t t' idle e g h = tt
Relies-frame c c' t t' (waiting call) e g h = tt
Relies-frame c c' t t' (locked call) e g h = tt
Relies-frame c c' t t' (sent call nonce) e g h = Stored-frame c c' call nonce (e call.key refl) h
Relies-frame c c' t t' (served call nonce) e g (h, gone) =
    (Stored-frame c c' call nonce (e call.key refl) h, λ z. g call.key refl (gone z))
Relies-frame c c' t t' (answered call nonce m) e g (h, gone) =
    (Stored-frame c c' call nonce (e call.key refl) h, λ z. g call.key refl (gone z))
Relies-frame c c' t t' (leaving call o) e g h = tt
Relies-frame c c' t t' (finished o) e g h = tt

pub Relies-update :
    (i a : ℕ) (p : Task) (f : ℕ → Task) (c : Client) (t : Table)
    → Relies c t p
    → ((i == a) ≡ false → Relies c t (f a))
    → Relies c t (update f i p a)
Relies-update i a p f c t h k = elim (Bool-cases (i == a)) [ inl y ↦ rw y h | inr y ↦ rw y (k y) ]

pub claim_nonce-Stored :
    (call : MapCall) (c : Client) → Stored (claim_nonce call c) call (choose_nonce call c)
claim_nonce-Stored call c = (
  λ h. ground (arith, claim_nonce-nonces call c call.key, key_eq_iff call.key call.key),
  λ n h. ground (
    arith,
    claim_nonce-nonces call c call.key,
    key_eq_iff call.key call.key,
    choose_nonce-stored call c n,
  ),
)

pub granted-Gone :
    (call : MapCall) (nonce : Bytes) (t : Table)
    → Gone (set_entry call.key (granted_entry call nonce) t) call
granted-Gone call nonce t z = ground (arith, key_eq_iff call.key call.key)
