-- ===== src/Gateway/Merge/Once.antt =====
-- The values on the merged channel without their order.
use mathlib.Core.List.{Perm, append_assoc}
use mathlib.Core.List.Perm
use mathlib.Core.List.{perm_append_comm}
use go_nat.Base.{◌≡◌, refl, sym, subst, inl, inr, true, false, Option, List, [], ◌∷◌, ◌++◌, map}
use go_nat.Base.Lists.{All}
use go_nat.Gateway.Merge.{Channel, Source, Merge, At, first, later, Reach, merge_nats}
use go_nat.Gateway.Merge.Interleave.{Interleaves, nothing, one_more}
use go_nat.Gateway.Merge.Complete.{merge_nats_complete}

abbrev pub all_of : {A : Type 0} → List (List A) → List A
all_of [] = []
all_of (xs ∷ xss) = xs ++ all_of xss

module _ {A : Type 0} where
  all_of-nothing : (xss : List (List A)) → All (λ xs. xs ≡ []) xss → all_of xss ≡ []
  all_of-nothing [] h = refl
  all_of-nothing (xs ∷ xss) (h, hs) = rw h (all_of-nothing xss hs)

  all_of-At :
      (a : A) {xss yss : List (List A)}
      → At (λ xs ys. ys ≡ xs ++ (a ∷ [])) xss yss
      → Perm (all_of xss ++ (a ∷ [])) (all_of yss)
  all_of-At a (first {x = xs} {y = ys} {xs = xss} e) =
      subst (λ zs. Perm ((xs ++ all_of xss) ++ (a ∷ [])) (zs ++ all_of xss)) (sym e)
        (subst (λ zs. Perm ((xs ++ all_of xss) ++ (a ∷ [])) zs)
          (sym (append_assoc xs (a ∷ []) (all_of xss)))
          (subst (λ zs. Perm zs (xs ++ (a ∷ all_of xss)))
            (sym (append_assoc xs (all_of xss) (a ∷ [])))
            (Perm.append_left xs (perm_append_comm (all_of xss) (a ∷ [])))))
  all_of-At a (later {x = xs} {xs = xss} {ys = yss} at) =
      subst (λ zs. Perm zs (xs ++ all_of yss)) (sym (append_assoc xs (all_of xss) (a ∷ [])))
        (Perm.append_left xs (all_of-At a at))

  Interleaves-Perm :
      {xss : List (List A)} {out : List A} → Interleaves xss out → Perm out (all_of xss)
  Interleaves-Perm (nothing {xss} h) = rw (all_of-nothing xss h) (Perm.refl [])
  Interleaves-Perm (one_more a w at) =
      Perm.trans (Perm.append_right (a ∷ []) (Interleaves-Perm w)) (all_of-At a at)

  abbrev pub sent_of : Merge A → List (List A)
  sent_of m = map (λ s. s.sent) m.sources

  pub passed-sent :
      (ss : List (Source A))
      → All (λ s. (s.closed ≡ true) × (s.sent ≡ s.passed)) ss
      → map (λ s. s.passed) ss ≡ map (λ s. s.sent) ss
  passed-sent [] h = refl
  passed-sent (s ∷ ss) ((c, e), h) = rw (e, passed-sent ss h) refl

  -- Where the merged channel is closed and the context is not done, the reader has received every value
  -- that was sent into a source, each as often as it was sent, and nothing else.
  pub merge_nats_once :
      (sources : List (Option (Channel A))) {m : Merge A}
      → Reach (merge_nats sources) m
      → m.out_closed ≡ true
      → m.cancelled ≡ false
      → Perm m.out (all_of (sent_of m))
  merge_nats_once sources {m} r c live =
      let (forwards, woven, prefixes, ended, silent) = merge_nats_complete sources r in
      elim (ended c) [
        | inl done ↦ cc
        | inr all ↦
            subst (λ xss. Perm m.out (all_of xss)) (passed-sent m.sources all)
              (Interleaves-Perm woven)
      ]
