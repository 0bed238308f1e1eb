-- ===== src/Gateway/Upnp/Service/Preferred.antt =====
-- The service that a device's NAT stands on is the most preferred of those that work.
use go_nat.Base.{
  ℕ, ◌≤◌, ◌≡◌, refl, ap, ◌∙◌, ◌≢◌, inl, inr, true, false, Option, some, none, String, List, [], ◌∷◌,
  arith,
}
use go_nat.Base.Tests.{ltb, leb, if◌then◌else◌, Bool-cases}
use go_nat.Base.Lists.{All}
use go_nat.Base.Outcome.{message, plain, Outcome, ok, err, panic, Outcome-cases}
use go_nat.Gateway.Upnp.{UpnpNat}
use go_nat.Gateway.Upnp.Service.{
  Service, RootDevice, rank, ranked, place, by_rank, first_usable, nat_from_service,
  nat_from_services,
}

le→leb : (a b : ℕ) → a ≤ b → leb a b ≡ true
le→leb a b h = ground arith

module _ {S : Type 0} (discovery : String) (root : RootDevice S) where
  -- The most preferred NAT of the services in their order on the device: of those that yield a NAT, the
  -- one of highest rank, and of several such the first. `none` where there is none.
  abbrev better : Service S → UpnpNat S → Option (Service S × UpnpNat S) → Service S × UpnpNat S
  better srv gateway none = (srv, gateway)
  better srv gateway (some (t, g)) = if leb (rank t) (rank srv) then (srv, gateway) else (t, g)

  abbrev pub consider :
      Service S
      → Outcome (UpnpNat S)
      → Option (Service S × UpnpNat S)
      → Option (Service S × UpnpNat S)
  consider srv (ok gateway) later = some (better srv gateway later)
  consider srv (err e) later = later
  consider srv panic later = later

  abbrev pub best : List (Service S) → Option (Service S × UpnpNat S)
  best [] = none
  best (srv ∷ srvs) = consider srv (nat_from_service discovery root srv) (best srvs)

  -- A list sorted by falling rank.
  abbrev Sorted : List (Service S) → Type 0
  Sorted [] = Unit {0}
  Sorted (srv ∷ srvs) = All (λ t. rank t ≤ rank srv) srvs × Sorted srvs

  -- The first service of a list that yields a NAT.
  abbrev or_later :
      Service S
      → Outcome (UpnpNat S)
      → Option (Service S × UpnpNat S)
      → Option (Service S × UpnpNat S)
  or_later srv (ok gateway) later = some (srv, gateway)
  or_later srv (err e) later = later
  or_later srv panic later = later

  abbrev first : List (Service S) → Option (Service S × UpnpNat S)
  first [] = none
  first (srv ∷ srvs) = or_later srv (nat_from_service discovery root srv) (first srvs)

  place-All :
      (n : ℕ) (srv : Service S) (srvs : List (Service S))
      → rank srv ≤ n
      → All (λ t. rank t ≤ n) srvs
      → All (λ t. rank t ≤ n) (place srv srvs)
  place-All n srv [] h k = (h, k)
  place-All n srv (t ∷ ts) h (kt, k) = elim (Bool-cases (leb (rank t) (rank srv))) [
    | inl y ↦ rw y (h, (kt, k))
    | inr y ↦ rw y (kt, place-All n srv ts h k)
  ]

  All-le :
      (m n : ℕ) (srvs : List (Service S))
      → m ≤ n
      → All (λ t. rank t ≤ m) srvs
      → All (λ t. rank t ≤ n) srvs
  All-le m n [] h k = k
  All-le m n (t ∷ ts) h (kt, k) = (omega arith, All-le m n ts h k)

  place-Sorted : (srv : Service S) (srvs : List (Service S)) → Sorted srvs → Sorted (place srv srvs)
  place-Sorted srv [] h = (tt, tt)
  place-Sorted srv (t ∷ ts) (top, h) = elim (Bool-cases (leb (rank t) (rank srv))) [
    | inl y ↦ rw y ((ground arith, All-le (rank t) (rank srv) ts (ground arith) top), (top, h))
    | inr y ↦ rw y (place-All (rank t) srv ts (ground arith) top, place-Sorted srv ts h)
  ]

  by_rank-Sorted : (srvs : List (Service S)) → Sorted (by_rank srvs)
  by_rank-Sorted [] = tt
  by_rank-Sorted (srv ∷ srvs) = place-Sorted srv (by_rank srvs) (by_rank-Sorted srvs)

  abbrev RankBelow : ℕ → Option (Service S × UpnpNat S) → Type 0
  RankBelow n found = (t : Service S) (g : UpnpNat S) → found ≡ some (t, g) → rank t ≤ n

  or_later-RankBelow :
      (n : ℕ) (t : Service S) (o : Outcome (UpnpNat S)) (later : Option (Service S × UpnpNat S))
      → rank t ≤ n
      → RankBelow n later
      → RankBelow n (or_later t o later)
  or_later-RankBelow n t (ok g) later h k = λ u g' p. ground arith
  or_later-RankBelow n t (err e) later h k = k
  or_later-RankBelow n t panic later h k = k

  first-RankBelow :
      (n : ℕ) (srvs : List (Service S)) → All (λ t. rank t ≤ n) srvs → RankBelow n (first srvs)
  first-RankBelow n [] h = λ t g p. absurd (ground arith)
  first-RankBelow n (t ∷ ts) (ht, h) =
      or_later-RankBelow n t (nat_from_service discovery root t) (first ts) ht
        (first-RankBelow n ts h)

  or_later-consider :
      (srv : Service S) (o : Outcome (UpnpNat S)) (later : Option (Service S × UpnpNat S))
      → RankBelow (rank srv) later
      → or_later srv o later ≡ consider srv o later
  or_later-consider srv (ok g) none h = refl
  or_later-consider srv (ok g) (some (t, g')) h = rw (le→leb (rank t) (rank srv) (h t g' refl)) refl
  or_later-consider srv (err e) later h = refl
  or_later-consider srv panic later h = refl

  consider_lower :
      (srv t : Service S) (o o' : Outcome (UpnpNat S)) (later : Option (Service S × UpnpNat S))
      → leb (rank t) (rank srv) ≡ false
      → or_later t o' (consider srv o later) ≡ consider srv o (or_later t o' later)
  consider_lower srv t (ok g) (ok g') later h = rw h refl
  consider_lower srv t (err e) (ok g') later h = refl
  consider_lower srv t panic (ok g') later h = refl
  consider_lower srv t o (err e') later h = refl
  consider_lower srv t o panic later h = refl

  first-place :
      (srv : Service S) (srvs : List (Service S))
      → Sorted srvs
      → first (place srv srvs) ≡ consider srv (nat_from_service discovery root srv) (first srvs)
  first-place srv [] h =
      or_later-consider srv (nat_from_service discovery root srv) none
        (λ t g p. absurd (ground arith))
  first-place srv (t ∷ ts) (top, h) = elim (Bool-cases (leb (rank t) (rank srv))) [
    | inl y ↦ rw y (
        or_later-consider srv (nat_from_service discovery root srv) (first (t ∷ ts)) (
          first-RankBelow (rank srv) (t ∷ ts)
            (ground arith, All-le (rank t) (rank srv) ts (ground arith) top)))
    | inr y ↦ rw y (
        ap (or_later t (nat_from_service discovery root t)) (first-place srv ts h)
        ∙ consider_lower srv t (nat_from_service discovery root srv)
            (nat_from_service discovery root t) (first ts) y)
  ]

  first-by_rank : (srvs : List (Service S)) → first (by_rank srvs) ≡ best srvs
  first-by_rank [] = refl
  first-by_rank (srv ∷ srvs) =
      first-place srv (by_rank srvs) (by_rank-Sorted srvs)
      ∙ ap (consider srv (nat_from_service discovery root srv)) (first-by_rank srvs)

  -- The NAT of a choice, or the error where there is no service to choose.
  abbrev pub chosen : Option (Service S × UpnpNat S) → Outcome (UpnpNat S)
  chosen none = err (message (plain "no usable WAN connection service in device at %s"))
  chosen (some (srv, gateway)) = ok gateway

  abbrev pub Returns : List (Service S) → Type 0
  Returns srvs = All (λ srv. nat_from_service discovery root srv ≢ panic) srvs

  place-Returns :
      (srv : Service S) (srvs : List (Service S))
      → nat_from_service discovery root srv ≢ panic
      → Returns srvs
      → Returns (place srv srvs)
  place-Returns srv [] h k = (h, k)
  place-Returns srv (t ∷ ts) h (kt, k) = elim (Bool-cases (leb (rank t) (rank srv))) [
    | inl y ↦ rw y (h, (kt, k))
    | inr y ↦ rw y (kt, place-Returns srv ts h k)
  ]

  by_rank-Returns : (srvs : List (Service S)) → Returns srvs → Returns (by_rank srvs)
  by_rank-Returns [] h = h
  by_rank-Returns (srv ∷ srvs) (hs, h) =
      place-Returns srv (by_rank srvs) hs (by_rank-Returns srvs h)

  ranked-Returns : (srvs : List (Service S)) → Returns srvs → Returns (ranked srvs)
  ranked-Returns [] h = h
  ranked-Returns (srv ∷ srvs) (hs, h) = elim (Bool-cases (ltb 0 (rank srv))) [
    | inl y ↦ rw y (hs, ranked-Returns srvs h)
    | inr y ↦ rw y (ranked-Returns srvs h)
  ]

  first_usable-first :
      (srvs : List (Service S))
      → Returns srvs
      → first_usable discovery root srvs ≡ chosen (first srvs)
  first_usable-first [] h = refl
  first_usable-first (srv ∷ srvs) (hs, h) =
      elim (Outcome-cases (nat_from_service discovery root srv)) [
        | inl (g, y) ↦ rw (first_usable, y) refl
        | inr (inl (e, y)) ↦ rw (first_usable, y) (first_usable-first srvs h)
        | inr (inr y) ↦ absurd (hs y)
      ]

  -- Of the services of a device that have a rank and yield a NAT, natFromUPNPLocation takes, once it has
  -- the description, one of the highest rank, and of several such the first on the device; it answers
  -- an error exactly where there is none. The calls to the device return.
  pub nat_from_services-best :
      Returns root.services
      → nat_from_services discovery root ≡ chosen (best (ranked root.services))
  unfolding nat_from_services
  nat_from_services-best h =
      first_usable-first (by_rank (ranked root.services))
        (by_rank-Returns (ranked root.services) (ranked-Returns root.services h))
      ∙ ap chosen (first-by_rank (ranked root.services))
