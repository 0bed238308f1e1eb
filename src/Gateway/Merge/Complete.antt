-- ===== src/Gateway/Merge/Complete.antt =====
-- What the reader of the channel that mergeNATs returns receives.
use go_nat.Base.{
  ◌≡◌, refl, sym, subst, ◌⊎◌, inl, inr, Bool, true, false, Option, none, some, List, [], ◌∷◌, ◌++◌,
  map,
}
use go_nat.Base.Lists.{All}
use go_nat.Gateway.Merge.{
  Channel, Forwarder, receiving, sending, returned, Source, Merge, At, first, later, Forward,
  receive, see_closed, stop_receiving, stop_sending, Send, send, Feed, publish, close, AllReturned,
  forward, close_out, Deliver, deliver, feed, cancel, Step, own, delivers, outside, Reach, here,
  next, start_forwarders, merge_nats,
}
use go_nat.Gateway.Merge.Interleave.{Interleaves, nothing, one_more}
use go_nat.Gateway.Merge.Moves.{At-All, All-weaken, At-map-same, At-map}
use go_nat.Gateway.Merge.Sources.{
  Forwards, Forward-sent, Send-sent, Feed-sent, At-Forwards, start-Forwards,
}
use go_nat.Gateway.Merge.Flow.{IsPrefix, FlowAt, Flow, Forward-Flow, Send-Flow, Feed-Flow}

module _ {A : Type 0} where
  abbrev pub passed_of : Merge A → List (List A)
  passed_of m = map (λ s. s.passed) m.sources

  record Inv (sources : List (Option (Channel A))) (m : Merge A) : Type 0 where
    forwards : Forwards sources m.sources
    flows : All (Flow m.cancelled) m.sources
    woven : Interleaves (passed_of m) m.out
    ended : m.out_closed ≡ true → AllReturned m.sources

  Forward-passed : (done : Bool) (s t : Source A) → Forward done s t → t.passed ≡ s.passed
  Forward-passed done s _ (receive nat rest e b) = refl
  Forward-passed done s _ (see_closed e b c) = refl
  Forward-passed done s _ (stop_receiving e d) = refl
  Forward-passed done s _ (stop_sending nat e d) = refl

  Feed-passed : (s t : Source A) → Feed s t → t.passed ≡ s.passed
  Feed-passed s _ (publish nat c) = refl
  Feed-passed s _ (close c) = refl

  Send-passed : (nat : A) (s t : Source A) → Send nat s t → t.passed ≡ s.passed ++ (nat ∷ [])
  Send-passed nat s _ (send e) = refl

  -- A goroutine that has returned takes no more steps.
  Forward-returned :
      (done : Bool) (s t : Source A)
      → Forward done s t
      → s.forwarder ≡ returned
      → t.forwarder ≡ returned
  Forward-returned done s _ (receive nat rest e b) h = cc
  Forward-returned done s _ (see_closed e b c) h = refl
  Forward-returned done s _ (stop_receiving e d) h = refl
  Forward-returned done s _ (stop_sending nat e d) h = refl

  Send-returned :
      (nat : A) (s t : Source A) → Send nat s t → s.forwarder ≡ returned → t.forwarder ≡ returned
  Send-returned nat s _ (send e) h = cc

  Feed-returned : (s t : Source A) → Feed s t → s.forwarder ≡ returned → t.forwarder ≡ returned
  Feed-returned s _ (publish nat c) h = h
  Feed-returned s _ (close c) h = h

  cancel-FlowAt : (f : Forwarder A) (done : Bool) (s : Source A) → FlowAt f done s → FlowAt f true s
  cancel-FlowAt receiving done s h = h
  cancel-FlowAt (sending nat) done s h = h
  cancel-FlowAt returned done s (h, e) = (h, inl refl)

  Step-Inv :
      {sources : List (Option (Channel A))} {m n : Merge A}
      → Inv sources m
      → Step m n
      → Inv sources n
  Step-Inv {sources} {m} inv (own (forward at)) = record {
    forwards = At-Forwards (Forward-sent m.cancelled) sources at inv.forwards;
    flows = At-All (Flow m.cancelled) (Forward-Flow m.cancelled) at inv.flows;
    woven =
        subst (λ xss. Interleaves xss m.out)
          (sym (At-map-same (λ s. s.passed) (Forward-passed m.cancelled) at)) inv.woven;
    ended =
        λ h. At-All (λ s. s.forwarder ≡ returned) (Forward-returned m.cancelled) at (inv.ended h);
  }
  Step-Inv {sources} {m} inv (own (close_out all o)) = record {
    forwards = inv.forwards;
    flows = inv.flows;
    woven = inv.woven;
    ended = λ h. all;
  }
  Step-Inv {sources} {m} inv (delivers (deliver nat at)) = record {
    forwards = At-Forwards (Send-sent nat) sources at inv.forwards;
    flows = At-All (Flow m.cancelled) (Send-Flow m.cancelled nat) at inv.flows;
    woven =
        one_more nat inv.woven
          (At-map (λ xs ys. ys ≡ xs ++ (nat ∷ [])) (λ s. s.passed) (Send-passed nat) at);
    ended = λ h. At-All (λ s. s.forwarder ≡ returned) (Send-returned nat) at (inv.ended h);
  }
  Step-Inv {sources} {m} inv (outside (feed at)) = record {
    forwards = At-Forwards Feed-sent sources at inv.forwards;
    flows = At-All (Flow m.cancelled) (Feed-Flow m.cancelled) at inv.flows;
    woven =
        subst (λ xss. Interleaves xss m.out) (sym (At-map-same (λ s. s.passed) Feed-passed at))
          inv.woven;
    ended = λ h. At-All (λ s. s.forwarder ≡ returned) Feed-returned at (inv.ended h);
  }
  Step-Inv {sources} {m} inv (outside cancel) = record {
    forwards = inv.forwards;
    flows =
        All-weaken (Flow m.cancelled) (Flow true) m.sources
          (λ s. cancel-FlowAt s.forwarder m.cancelled s) inv.flows;
    woven = inv.woven;
    ended = inv.ended;
  }

  start-flows : (sources : List (Option (Channel A))) → All (Flow false) (start_forwarders sources)
  unfolding start_forwarders
  start-flows [] = tt
  start-flows (none ∷ sources) = start-flows sources
  start-flows (some c ∷ sources) = (refl, start-flows sources)

  start-passed :
      (sources : List (Option (Channel A)))
      → All (λ xs. xs ≡ []) (map (λ s. s.passed) (start_forwarders sources))
  unfolding start_forwarders
  start-passed [] = tt
  start-passed (none ∷ sources) = start-passed sources
  start-passed (some c ∷ sources) = (refl, start-passed sources)

  start-Inv : (sources : List (Option (Channel A))) → Inv sources (merge_nats sources)
  unfolding merge_nats
  start-Inv sources = record {
    forwards = start-Forwards sources;
    flows = start-flows sources;
    woven = nothing (start-passed sources);
    ended = λ h. cc;
  }

  Reach-Inv :
      {sources : List (Option (Channel A))} {m n : Merge A}
      → Inv sources m
      → Reach m n
      → Inv sources n
  Reach-Inv h here = h
  Reach-Inv h (next r st) = Step-Inv (Reach-Inv h r) st

  FlowAt-IsPrefix :
      (f : Forwarder A) (done : Bool) (s : Source A) → FlowAt f done s → IsPrefix s.passed s.sent
  FlowAt-IsPrefix receiving done s h = (s.buffer, h)
  FlowAt-IsPrefix (sending nat) done s h = (nat ∷ s.buffer, h)
  FlowAt-IsPrefix returned done s (h, e) = h

  -- All was passed on, unless the context is done.
  returned-drained :
      (done : Bool) (ss : List (Source A))
      → All (Flow done) ss
      → AllReturned ss
      → (done ≡ true) ⊎ All (λ s. (s.closed ≡ true) × (s.sent ≡ s.passed)) ss
  returned-drained done [] f r = inr tt
  returned-drained done (s ∷ ss) (f, fs) (r, rs) = elim ((subst (λ g. FlowAt g done s) r f).1) [
    | inl d ↦ inl d
    | inr h ↦ elim (returned-drained done ss fs rs) [ inl d ↦ inl d | inr hs ↦ inr (h, hs) ]
  ]

  Send-not-returned : {nat : A} {ss ts : List (Source A)} → At (Send nat) ss ts → AllReturned ss → ⊥
  Send-not-returned (first (send e)) (r, rs) = cc
  Send-not-returned (later at) (r, rs) = Send-not-returned at rs

  Deliver-closed :
      {sources : List (Option (Channel A))} {m n : Merge A}
      → Inv sources m
      → m.out_closed ≡ true
      → Deliver m n
      → ⊥
  Deliver-closed inv h (deliver nat at) = Send-not-returned at (inv.ended h)

  -- However the goroutines of mergeNATs, the sources and the reader take turns, there is one
  -- goroutine for each channel that is not nil, in their order; what the reader has received is an
  -- interleaving of what was passed on from each source, which is a prefix of what was sent into
  -- that source; where the merged channel is closed, the context is done or every source is closed
  -- and all that was sent into it was passed on; and no value is sent to a closed channel.
  pub merge_nats_complete :
      (sources : List (Option (Channel A))) {m : Merge A}
      → Reach (merge_nats sources) m
      → Forwards sources m.sources
        × Interleaves (passed_of m) m.out
        × All (λ s. IsPrefix s.passed s.sent) m.sources
        × (m.out_closed ≡ true
            → (m.cancelled ≡ true) ⊎ All (λ s. (s.closed ≡ true) × (s.sent ≡ s.passed)) m.sources)
        × ((n : Merge A) → m.out_closed ≡ true → Deliver m n → ⊥)
  merge_nats_complete sources {m} r =
      let inv = Reach-Inv (start-Inv sources) r in
      (
        inv.forwards,
        inv.woven,
        All-weaken (Flow m.cancelled) (λ s. IsPrefix s.passed s.sent) m.sources
            (λ s. FlowAt-IsPrefix s.forwarder m.cancelled s) inv.flows,
        λ h. returned-drained m.cancelled m.sources inv.flows (inv.ended h),
        λ n. Deliver-closed inv,
      )
