-- ===== src/Gateway/Merge/Flow.antt =====
-- What a goroutine of mergeNATs holds back and what it has passed on.
use go_nat.Base.{
  ◌≡◌, refl, sym, subst, ◌∙◌, ap, ◌⊎◌, inl, inr, Bool, true, false, List, [], ◌∷◌, ◌++◌,
}
use mathlib.Core.List.{append_assoc, append-nil}
use go_nat.Gateway.Merge.{
  Forwarder, receiving, sending, returned, Source, Forward, receive, see_closed, stop_receiving,
  stop_sending, Send, send, Feed, publish, close,
}

abbrev pub IsPrefix {ℓ} : {A : Type ℓ} → List A → List A → Type ℓ
IsPrefix {A = A} xs ys = (rest : List A) × (ys ≡ xs ++ rest)

module _ {A : Type 0} where
  abbrev pub FlowAt : Forwarder A → Bool → Source A → Type 0
  FlowAt receiving done s = s.sent ≡ s.passed ++ s.buffer
  FlowAt (sending nat) done s = s.sent ≡ s.passed ++ (nat ∷ s.buffer)
  FlowAt returned done s =
      IsPrefix s.passed s.sent × ((done ≡ true) ⊎ ((s.closed ≡ true) × (s.sent ≡ s.passed)))

  -- A source has sent what its goroutine has passed on, the value that it holds, and what is in the
  -- channel; a goroutine returns when all was passed on, or the context is done.
  abbrev pub Flow : Bool → Source A → Type 0
  Flow done s = FlowAt s.forwarder done s

  pub Forward-Flow : (done : Bool) (s t : Source A) → Forward done s t → Flow done s → Flow done t
  Forward-Flow done s _ (receive nat rest e b) h =
      subst (λ f. FlowAt f done s) e h ∙ ap (λ xs. s.passed ++ xs) b
  Forward-Flow done s _ (see_closed e b c) h =
      let all = subst (λ f. FlowAt f done s) e h ∙ ap (λ xs. s.passed ++ xs) b in
      (([], all), inr (c, all ∙ append-nil s.passed))
  Forward-Flow done s _ (stop_receiving e d) h =
      ((s.buffer, subst (λ f. FlowAt f done s) e h), inl d)
  Forward-Flow done s _ (stop_sending nat e d) h =
      ((nat ∷ s.buffer, subst (λ f. FlowAt f done s) e h), inl d)

  pub Send-Flow :
      (done : Bool) (nat : A) (s t : Source A) → Send nat s t → Flow done s → Flow done t
  Send-Flow done nat s _ (send e) h =
      subst (λ f. FlowAt f done s) e h ∙ sym (append_assoc s.passed (nat ∷ []) s.buffer)

  publish-FlowAt :
      (f : Forwarder A) (done : Bool) (s : Source A) (nat : A)
      → s.closed ≡ false
      → FlowAt f done s
      → FlowAt f done (record s { buffer = s.buffer ++ (nat ∷ []); sent = s.sent ++ (nat ∷ []) })
  publish-FlowAt receiving done s nat c h =
      ap (λ xs. xs ++ (nat ∷ [])) h ∙ append_assoc s.passed s.buffer (nat ∷ [])
  publish-FlowAt (sending n) done s nat c h =
      ap (λ xs. xs ++ (nat ∷ [])) h ∙ append_assoc s.passed (n ∷ s.buffer) (nat ∷ [])
  publish-FlowAt returned done s nat c ((rest, h), inl d) = (
    (rest ++ (nat ∷ []), ap (λ xs. xs ++ (nat ∷ [])) h ∙ append_assoc s.passed rest (nat ∷ [])),
    inl d,
  )
  publish-FlowAt returned done s nat c (h, inr (d, e)) = cc

  close-FlowAt :
      (f : Forwarder A) (done : Bool) (s : Source A)
      → s.closed ≡ false
      → FlowAt f done s
      → FlowAt f done (record s { closed = true })
  close-FlowAt receiving done s c h = h
  close-FlowAt (sending nat) done s c h = h
  close-FlowAt returned done s c (h, inl d) = (h, inl d)
  close-FlowAt returned done s c (h, inr (d, e)) = (h, inr (refl, e))

  pub Feed-Flow : (done : Bool) (s t : Source A) → Feed s t → Flow done s → Flow done t
  Feed-Flow done s _ (publish nat c) h = publish-FlowAt s.forwarder done s nat c h
  Feed-Flow done s _ (close c) h = close-FlowAt s.forwarder done s c h
