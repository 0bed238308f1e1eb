-- ===== src/Gateway/Merge/Examples.antt =====
-- mergeNATs over three channels, one of which is nil.
use go_nat.Base.{
  ℕ, ◌+◌, ◌≤◌, ◌≡◌, refl, ◌⊎◌, inl, inr, true, false, Option, some, none, List, [], ◌∷◌,
}
use go_nat.Base.Lists.{All}
use go_nat.Gateway.Merge.{
  Channel, receiving, sending, Source, Merge, first, later, receive, send, Own, forward, Deliver,
  deliver, own, delivers, Reach, here, next, start_forwarders, merge_nats,
}
use go_nat.Gateway.Merge.Interleave.{Interleaves}
use go_nat.Gateway.Merge.Flow.{IsPrefix}
use go_nat.Gateway.Merge.Sources.{Forwards}
use go_nat.Gateway.Merge.Complete.{passed_of, merge_nats_complete}
use go_nat.Gateway.Merge.Finish.{work, stay, go_on, merge_nats_ends}

-- The first channel holds 1 and 2, the second is nil, the third holds 3; both are closed.
abbrev channels : List (Option (Channel ℕ))
channels =
    some (record { buffer = 1 ∷ 2 ∷ []; closed = true })
    ∷ none
    ∷ some (record { buffer = 3 ∷ []; closed = true })
    ∷ []

abbrev left : List ℕ → List ℕ → Source ℕ
left buffer passed = record {
  buffer = buffer;
  closed = true;
  forwarder = receiving;
  sent = 1 ∷ 2 ∷ [];
  passed = passed;
}

abbrev right : List ℕ → List ℕ → Source ℕ
right buffer passed = record {
  buffer = buffer;
  closed = true;
  forwarder = receiving;
  sent = 3 ∷ [];
  passed = passed;
}

abbrev begun : Merge ℕ
begun = record {
  sources = left (1 ∷ 2 ∷ []) [] ∷ right (3 ∷ []) [] ∷ [];
  out = [];
  out_closed = false;
  cancelled = false;
}

merged : merge_nats channels ≡ begun
unfolding merge_nats start_forwarders
merged = refl

-- Both goroutines receive, and the second one sends first.
abbrev third_holds : Merge ℕ
third_holds = record begun {
  sources = left (1 ∷ 2 ∷ []) [] ∷ record (right [] []) { forwarder = sending 3 } ∷ [];
}

abbrev both_hold : Merge ℕ
both_hold = record begun {
  sources =
      record (left (2 ∷ []) []) { forwarder = sending 1 }
      ∷ record (right [] []) { forwarder = sending 3 }
      ∷ [];
}

abbrev one_out : Merge ℕ
one_out = record begun {
  sources = record (left (2 ∷ []) []) { forwarder = sending 1 } ∷ right [] (3 ∷ []) ∷ [];
  out = 3 ∷ [];
}

third_receives : Own begun third_holds
third_receives = forward (later (first (receive 3 [] refl refl)))

first_receives : Own third_holds both_hold
first_receives = forward (first (receive 1 (2 ∷ []) refl refl))

third_sends : Deliver both_hold one_out
third_sends = deliver 3 (later (first (send refl)))

one_out-Reach : Reach (merge_nats channels) one_out
unfolding merge_nats start_forwarders
one_out-Reach =
    next (next (next here (own third_receives)) (own first_receives)) (delivers third_sends)

merge_nats_complete_example :
    Forwards channels one_out.sources
    × Interleaves (passed_of one_out) one_out.out
    × All (λ s. IsPrefix s.passed s.sent) one_out.sources
    × (one_out.out_closed ≡ true
        → (one_out.cancelled ≡ true)
          ⊎ All (λ s. (s.closed ≡ true) × (s.sent ≡ s.passed)) one_out.sources)
    × ((n : Merge ℕ) → one_out.out_closed ≡ true → Deliver one_out n → ⊥)
merge_nats_complete_example = merge_nats_complete channels one_out-Reach

merge_nats_ends_example :
    (3 + work one_out ≤ work begun)
    × ((one_out.out_closed ≡ true) ⊎ ((o : Merge ℕ) × (Own one_out o ⊎ Deliver one_out o)))
    × (one_out.cancelled ≡ true → (one_out.out_closed ≡ true) ⊎ ((o : Merge ℕ) × Own one_out o))
merge_nats_ends_example =
    merge_nats_ends begun (inr (refl, (refl, tt)))
      (go_on (go_on (go_on stay (inl third_receives)) (inl first_receives)) (inr third_sends))
