-- ===== src/Gateway/Merge/Sources.antt =====
-- The goroutines of mergeNATs and the channels that they read.
use mathlib.Core.List.{append_assoc, append-nil}
use go_nat.Base.{◌≡◌, refl, sym, ap, ◌∙◌, Bool, Option, none, some, List, [], ◌∷◌, ◌++◌}
use go_nat.Gateway.Merge.{
  Channel, Source, At, first, later, Forward, receive, see_closed, stop_receiving, stop_sending,
  Send, send, Feed, publish, close, start_forwarders,
}
use go_nat.Gateway.Merge.Flow.{IsPrefix}

module _ {A : Type 0} where
  -- One goroutine for each channel that is not nil, in order, and what was in the channel when it began
  -- was sent first.
  abbrev pub Forwards : List (Option (Channel A)) → List (Source A) → Type 0
  Forwards [] [] = Unit {0}
  Forwards [] (s ∷ ss) = ⊥
  Forwards (none ∷ cs) ss = Forwards cs ss
  Forwards (some c ∷ cs) [] = ⊥
  Forwards (some c ∷ cs) (s ∷ ss) = IsPrefix c.buffer s.sent × Forwards cs ss

  IsPrefix-same : (xs ys : List A) → ys ≡ xs → IsPrefix xs ys
  IsPrefix-same xs ys e = ([], e ∙ sym (append-nil xs))

  IsPrefix-trans : (xs ys zs : List A) → IsPrefix xs ys → IsPrefix ys zs → IsPrefix xs zs
  IsPrefix-trans xs ys zs (us, e) (vs, f) =
      (us ++ vs, f ∙ ap (λ ws. ws ++ vs) e ∙ append_assoc xs us vs)

  pub Forward-sent : (done : Bool) (s t : Source A) → Forward done s t → IsPrefix s.sent t.sent
  Forward-sent done s _ (receive nat rest e b) = IsPrefix-same s.sent s.sent refl
  Forward-sent done s _ (see_closed e b c) = IsPrefix-same s.sent s.sent refl
  Forward-sent done s _ (stop_receiving e d) = IsPrefix-same s.sent s.sent refl
  Forward-sent done s _ (stop_sending nat e d) = IsPrefix-same s.sent s.sent refl

  pub Send-sent : (nat : A) (s t : Source A) → Send nat s t → IsPrefix s.sent t.sent
  Send-sent nat s _ (send e) = IsPrefix-same s.sent s.sent refl

  pub Feed-sent : (s t : Source A) → Feed s t → IsPrefix s.sent t.sent
  Feed-sent s _ (publish nat c) = (nat ∷ [], refl)
  Feed-sent s _ (close c) = IsPrefix-same s.sent s.sent refl

  pub At-Forwards :
      {R : Source A → Source A → Type 0}
      → ((s t : Source A) → R s t → IsPrefix s.sent t.sent)
      → (sources : List (Option (Channel A))) {ss ts : List (Source A)} → At R ss ts
      → Forwards sources ss
      → Forwards sources ts
  At-Forwards f (none ∷ sources) at h = At-Forwards f sources at h
  At-Forwards f [] (first r) h = absurd h
  At-Forwards f [] (later at) h = absurd h
  At-Forwards f (some c ∷ sources) (first {x} {y} r) (p, h) =
      (IsPrefix-trans c.buffer x.sent y.sent p (f x y r), h)
  At-Forwards f (some c ∷ sources) (later at) (p, h) = (p, At-Forwards f sources at h)

  pub start-Forwards :
      (sources : List (Option (Channel A))) → Forwards sources (start_forwarders sources)
  unfolding start_forwarders
  start-Forwards [] = tt
  start-Forwards (none ∷ sources) = start-Forwards sources
  start-Forwards (some c ∷ sources) = (IsPrefix-same c.buffer c.buffer refl, start-Forwards sources)
