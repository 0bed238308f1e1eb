-- ===== src/Gateway/Merge/Finish.antt =====
-- The goroutines of mergeNATs end.
use go_nat.Base.{
  ℕ, suc, ◌+◌, ◌*◌, ◌≤◌, ◌≡◌, refl, sym, subst, ◌⊎◌, inl, inr, Bool, true, List, [], ◌∷◌, arith,
}
use go_nat.Base.Tests.{if◌then◌else◌, Bool-cases}
use go_nat.Base.Lists.{All, length}
use go_nat.Gateway.Merge.{
  Forwarder, receiving, sending, returned, Source, Merge, At, first, later, Forward, receive,
  see_closed, stop_receiving, stop_sending, Send, send, AllReturned, Own, forward, close_out,
  Deliver, deliver,
}
use go_nat.Gateway.Merge.Moves.{At-All}

module _ {A : Type 0} where
  abbrev forwarder_work : Forwarder A → ℕ
  forwarder_work receiving = 1
  forwarder_work (sending nat) = 2
  forwarder_work returned = 0

  abbrev source_work : Source A → ℕ
  source_work s = 2 * length s.buffer + forwarder_work s.forwarder

  abbrev sources_work : List (Source A) → ℕ
  sources_work [] = 0
  sources_work (s ∷ ss) = source_work s + sources_work ss

  -- Two steps for each value that is in a channel, at most two for each goroutine, and one for the
  -- goroutine that closes the merged channel.
  abbrev pub work : Merge A → ℕ
  work m = sources_work m.sources + (if m.out_closed then 0 else 1)

  -- `Run m k n`: the goroutines, and the reader where it receives, take `k` steps from `m` to `n`.
  pub data Run (m : Merge A) : ℕ → Merge A → Type 0 where
    stay : Run m 0 m
    go_on : {k : ℕ} {n o : Merge A} → Run m k n → Own n o ⊎ Deliver n o → Run m (suc k) o

  -- Nothing more comes from outside: the context is done, or every source is closed.
  abbrev pub IsEnding : Merge A → Type 0
  IsEnding m = (m.cancelled ≡ true) ⊎ All (λ s. s.closed ≡ true) m.sources

  Forward-work :
      (done : Bool) (s t : Source A) → Forward done s t → suc (source_work t) ≤ source_work s
  Forward-work done s _ (receive nat rest e b) = rw (e, b) (omega arith)
  Forward-work done s _ (see_closed e b c) = rw e (omega arith)
  Forward-work done s _ (stop_receiving e d) = rw e (omega arith)
  Forward-work done s _ (stop_sending nat e d) = rw e (omega arith)

  Send-work : (nat : A) (s t : Source A) → Send nat s t → suc (source_work t) ≤ source_work s
  Send-work nat s _ (send e) = rw e (omega arith)

  At-work :
      {R : Source A → Source A → Type 0} {ss ts : List (Source A)}
      → ((s t : Source A) → R s t → suc (source_work t) ≤ source_work s)
      → At R ss ts
      → suc (sources_work ts) ≤ sources_work ss
  At-work f (first {x} {y} r) = omega (arith, f x y r)
  At-work f (later at) = omega (arith, At-work f at)

  step-work : {m n : Merge A} → Own m n ⊎ Deliver m n → suc (work n) ≤ work m
  step-work {m} (inl (forward at)) = omega (arith, At-work (Forward-work m.cancelled) at)
  step-work {m} (inl (close_out all o)) = rw o (omega arith)
  step-work {m} (inr (deliver nat at)) = omega (arith, At-work (Send-work nat) at)

  Run-work : {m n : Merge A} {k : ℕ} → Run m k n → k + work n ≤ work m
  Run-work stay = omega arith
  Run-work (go_on r s) = omega (arith, Run-work r, step-work s)

  Forward-closed :
      (done : Bool) (s t : Source A) → Forward done s t → s.closed ≡ true → t.closed ≡ true
  Forward-closed done s _ (receive nat rest e b) h = h
  Forward-closed done s _ (see_closed e b c) h = h
  Forward-closed done s _ (stop_receiving e d) h = h
  Forward-closed done s _ (stop_sending nat e d) h = h

  Send-closed : (nat : A) (s t : Source A) → Send nat s t → s.closed ≡ true → t.closed ≡ true
  Send-closed nat s _ (send e) h = h

  step-IsEnding : {m n : Merge A} → Own m n ⊎ Deliver m n → IsEnding m → IsEnding n
  step-IsEnding (inl (forward at)) (inl h) = inl h
  step-IsEnding {m} (inl (forward at)) (inr h) =
      inr (At-All (λ s. s.closed ≡ true) (Forward-closed m.cancelled) at h)
  step-IsEnding (inl (close_out all o)) h = h
  step-IsEnding (inr (deliver nat at)) (inl h) = inl h
  step-IsEnding {m} (inr (deliver nat at)) (inr h) =
      inr (At-All (λ s. s.closed ≡ true) (Send-closed nat) at h)

  Run-IsEnding : {m n : Merge A} {k : ℕ} → Run m k n → IsEnding m → IsEnding n
  Run-IsEnding stay h = h
  Run-IsEnding (go_on r s) h = step-IsEnding s (Run-IsEnding r h)

  -- Where the context is done, a goroutine that has not returned can return.
  stop :
      (f : Forwarder A) (s : Source A)
      → s.forwarder ≡ f
      → (s.forwarder ≡ returned) ⊎ ((t : Source A) × Forward true s t)
  stop receiving s e = inr (_, stop_receiving e refl)
  stop (sending nat) s e = inr (_, stop_sending nat e refl)
  stop returned s e = inl e

  stop_one :
      (ss : List (Source A)) → AllReturned ss ⊎ ((ts : List (Source A)) × At (Forward true) ss ts)
  stop_one [] = inl tt
  stop_one (s ∷ ss) = elim (stop s.forwarder s refl) [
    | inr (t, f) ↦ inr (t ∷ ss, first f)
    | inl e ↦ elim (stop_one ss) [ inl es ↦ inl (e, es) | inr (ts, at) ↦ inr (s ∷ ts, later at) ]
  ]

  abbrev CanMove : Bool → List (Source A) → Type 0
  CanMove done ss =
      ((ts : List (Source A)) × At (Forward done) ss ts)
      ⊎ ((nat : A) × (ts : List (Source A)) × At (Send nat) ss ts)

  -- Where its source is closed, a goroutine that has not returned goes on.
  drain :
      (done : Bool) (f : Forwarder A) (buffer : List A) (s : Source A)
      → s.forwarder ≡ f
      → s.buffer ≡ buffer
      → s.closed ≡ true
      → (s.forwarder ≡ returned)
        ⊎ (((t : Source A) × Forward done s t) ⊎ ((nat : A) × (t : Source A) × Send nat s t))
  drain done receiving [] s e b c = inr (inl (_, see_closed e b c))
  drain done receiving (nat ∷ rest) s e b c = inr (inl (_, receive nat rest e b))
  drain done (sending nat) buffer s e b c = inr (inr (nat, _, send e))
  drain done returned buffer s e b c = inl e

  drain_one :
      (done : Bool) (ss : List (Source A))
      → All (λ s. s.closed ≡ true) ss
      → AllReturned ss ⊎ CanMove done ss
  drain_one done [] h = inl tt
  drain_one done (s ∷ ss) (h, hs) = elim (drain done s.forwarder s.buffer s refl refl h) [
    | inr (inl (t, f)) ↦ inr (inl (t ∷ ss, first f))
    | inr (inr (nat, t, f)) ↦ inr (inr (nat, t ∷ ss, first f))
    | inl e ↦ elim (drain_one done ss hs) [
      | inl es ↦ inl (e, es)
      | inr (inl (ts, at)) ↦ inr (inl (s ∷ ts, later at))
      | inr (inr (nat, ts, at)) ↦ inr (inr (nat, s ∷ ts, later at))
    ]
  ]

  stops : (m : Merge A) → m.cancelled ≡ true → (m.out_closed ≡ true) ⊎ ((n : Merge A) × Own m n)
  stops m c = elim (Bool-cases m.out_closed) [
    | inl o ↦ inl o
    | inr o ↦ elim (stop_one m.sources) [
      | inl all ↦ inr (_, close_out all o)
      | inr (ts, at) ↦ inr (_, forward (subst (λ d. At (Forward d) m.sources ts) (sym c) at))
    ]
  ]

  goes_on :
      (m : Merge A) → IsEnding m → (m.out_closed ≡ true) ⊎ ((n : Merge A) × (Own m n ⊎ Deliver m n))
  goes_on m (inl c) = elim (stops m c) [ inl o ↦ inl o | inr (n, o) ↦ inr (n, inl o) ]
  goes_on m (inr h) = elim (Bool-cases m.out_closed) [
    | inl o ↦ inl o
    | inr o ↦ elim (drain_one m.cancelled m.sources h) [
      | inl all ↦ inr (_, inl (close_out all o))
      | inr (inl (ts, at)) ↦ inr (_, inl (forward at))
      | inr (inr (nat, ts, at)) ↦ inr (_, inr (deliver nat at))
    ]
  ]

  -- Once the context is done or every source is closed, mergeNATs ends: the goroutines and the reader
  -- take at most `work` steps from there, in whichever order; until the merged channel is closed
  -- one of them can take a step; and once the context is done, that step needs no reader.
  pub merge_nats_ends :
      (m : Merge A)
      → IsEnding m
      → {k : ℕ} {n : Merge A} → Run m k n
      → (k + work n ≤ work m)
        × ((n.out_closed ≡ true) ⊎ ((o : Merge A) × (Own n o ⊎ Deliver n o)))
        × (n.cancelled ≡ true → (n.out_closed ≡ true) ⊎ ((o : Merge A) × Own n o))
  merge_nats_ends m h {k} {n} r = (Run-work r, goes_on n (Run-IsEnding r h), stops n)
