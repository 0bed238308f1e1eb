-- ===== src/Gateway/Upnp/Multicast/Offers.antt =====
-- What the multicast discovery of UPnP sends.
use go_nat.Base.{
  ℕ, suc, ◌≡◌, refl, ◌≢◌, subst, inl, inr, Bool, true, false, Option, some, none, String, List, [],
  ◌∷◌, ◌++◌, arith,
}
use go_nat.Base.Tests.{Option-cases, Bool-cases}
use go_nat.Base.Lists.{All}
use go_nat.Base.Outcome.{Outcome, ok, err, panic, ◌>>=◌}
use go_nat.Gateway.Upnp.{UpnpNat}
use go_nat.Gateway.Upnp.Service.{ServiceType, Service, RootDevice}
use go_nat.Gateway.Upnp.Multicast.{
  Device, Turn, nat_of, offer, visit, visit_services, visit_devices, discover_devices,
}

-- `xs` leaves out some elements of `ys`.
pub data Sublist {A : Type 0} : List A → List A → Type 0 where
  empty : Sublist [] []
  keep : {xs ys : List A} (a : A) → Sublist xs ys → Sublist (a ∷ xs) (a ∷ ys)
  skip : {xs ys : List A} (a : A) → Sublist xs ys → Sublist xs (a ∷ ys)

Sublist-append :
    {A : Type 0} {xs ys us vs : List A}
    → Sublist xs ys
    → Sublist us vs
    → Sublist (xs ++ us) (ys ++ vs)
Sublist-append empty t = t
Sublist-append (keep a s) t = keep a (Sublist-append s t)
Sublist-append (skip a s) t = skip a (Sublist-append s t)

-- The call `m` gives some of `wanted`, in this order, and all of it where `all` holds.
abbrev pub GivesFrom : {A : Type 0} → Type 0 → List A → Outcome (List A) → Type 0
GivesFrom {A} all wanted m =
    (given : List A) × (m ≡ ok given) × Sublist given wanted × (all → given ≡ wanted)

GivesFrom-append :
    {A : Type 0} (all : Type 0) (xs ys : List A) (m n : Outcome (List A))
    → GivesFrom all xs m
    → GivesFrom all ys n
    → GivesFrom all (xs ++ ys) (m >>= λ a. n >>= λ b. ok (a ++ b))
GivesFrom-append all xs ys m n (a, ea, sa, fa) (b, eb, sb, fb) =
    (a ++ b, rw (ea, eb) refl, Sublist-append sa sb, λ h. rw (fa h, fb h) refl)

Sublist-none : {A : Type 0} (xs : List A) → Sublist [] xs
Sublist-none [] = empty
Sublist-none (x ∷ xs) = skip x (Sublist-none xs)

-- The context is not done, and the reader takes what is sent.
abbrev pub IsOpen : Turn → Type 0
IsOpen turn = (turn.ctx_done ≡ false) × (turn.sends ≡ true)

module _ {S : Type 0} where
  abbrev enabled : UpnpNat S → Outcome Bool → List (UpnpNat S)
  enabled gateway (ok true) = gateway ∷ []
  enabled gateway (ok false) = []
  enabled gateway (err e) = []
  enabled gateway panic = []

  -- The NAT of a service with a name whose status says that NAT is enabled.
  abbrev nat_at : Option String → RootDevice S → Service S → List (UpnpNat S)
  nat_at none root srv = []
  nat_at (some typ) root srv = enabled (nat_of typ root srv) srv.is_nat

  abbrev nats_of :
      (ServiceType → Option String) → RootDevice S → List (Service S) → List (UpnpNat S)
  nats_of name root [] = []
  nats_of name root (srv ∷ srvs) = nat_at (name srv.service_type) root srv ++ nats_of name root srvs

  abbrev root_nats : (ServiceType → Option String) → Option (RootDevice S) → List (UpnpNat S)
  root_nats name none = []
  root_nats name (some root) = nats_of name root root.services

  -- All of them, in the order of the devices and of each device's services.
  abbrev pub all_nats : (ServiceType → Option String) → List (Device S) → List (UpnpNat S)
  all_nats name [] = []
  all_nats name (dev ∷ devs) = root_nats name dev.root ++ all_nats name devs

  abbrev IsCalmRoot : Option (RootDevice S) → Type 0
  IsCalmRoot none = Unit {0}
  IsCalmRoot (some root) = All (λ srv. srv.is_nat ≢ panic) root.services

  -- The status calls return.
  abbrev pub IsCalm : List (Device S) → Type 0
  IsCalm = All (λ dev. IsCalmRoot dev.root)

  offer-GivesFrom :
      (all : Type 0) (turn : Turn) (gateway : UpnpNat S) (status : Outcome Bool)
      → (all → turn.sends ≡ true)
      → status ≢ panic
      → GivesFrom all (enabled gateway status) (offer turn gateway status)
  offer-GivesFrom all turn gateway (ok true) h calm = elim (Bool-cases turn.sends) [
    | inl y ↦ (gateway ∷ [], rw y refl, keep gateway empty, λ z. refl)
    | inr n ↦ ([], rw n refl, skip gateway empty, λ z. absurd (ground (arith, h z)))
  ]
  offer-GivesFrom all turn gateway (ok false) h calm = ([], refl, empty, λ z. refl)
  offer-GivesFrom all turn gateway (err e) h calm = ([], refl, empty, λ z. refl)
  offer-GivesFrom all turn gateway panic h calm = absurd (calm refl)

  module _ (name : ServiceType → Option String) (turns : ℕ → ℕ → Turn) (all : Type 0)
      (open_turns : all → (d i : ℕ) → IsOpen (turns d i)) where
    visit-GivesFrom :
        (turn : Turn) (root : RootDevice S) (srv : Service S)
        → (all → IsOpen turn)
        → srv.is_nat ≢ panic
        → GivesFrom all (nat_at (name srv.service_type) root srv) (visit name turns turn root srv)
    unfolding visit
    visit-GivesFrom turn root srv h calm = elim (Bool-cases turn.ctx_done) [
      | inl y ↦ ([], rw (y, visit) refl, Sublist-none _, λ z. absurd (ground (arith, (h z).0)))
      | inr n ↦ elim (Option-cases (name srv.service_type)) [
        | inl e ↦ rw (n, e, visit) ([], refl, empty, λ z. refl)
        | inr (typ, e) ↦
            rw (n, e, visit)
              (offer-GivesFrom all turn (nat_of typ root srv) srv.is_nat (λ z. (h z).1) calm)
      ]
    ]

    visit_services-GivesFrom :
        (d : ℕ) (root : RootDevice S) (i : ℕ) (srvs : List (Service S))
        → All (λ srv. srv.is_nat ≢ panic) srvs
        → GivesFrom all (nats_of name root srvs) (visit_services name turns d root i srvs)
    unfolding visit_services
    visit_services-GivesFrom d root i [] calm = ([], refl, empty, λ z. refl)
    visit_services-GivesFrom d root i (srv ∷ srvs) (c, calm) =
        GivesFrom-append all _ _ _ _
          (visit-GivesFrom (turns d i) root srv (λ z. open_turns z d i) c)
          (visit_services-GivesFrom d root (suc i) srvs calm)

    visit_devices-GivesFrom :
        (d : ℕ) (devs : List (Device S))
        → IsCalm devs
        → GivesFrom all (all_nats name devs) (visit_devices name turns d devs)
    unfolding visit_devices
    visit_devices-GivesFrom d [] calm = ([], refl, empty, λ z. refl)
    visit_devices-GivesFrom d (dev ∷ devs) (c, calm) =
        let later = visit_devices-GivesFrom (suc d) devs calm in
        elim (Option-cases dev.root) [
          | inl e ↦ rw (e, visit_devices) later
          | inr (root, e) ↦
              rw (e, visit_devices)
                (GivesFrom-append all _ _ _ _
                  (visit_services-GivesFrom d root 0 root.services (subst IsCalmRoot e c)) later)
        ]

  -- From the devices that the search has found, the multicast discovery of UPnP sends NATs of services
  -- that its switch names and whose status says that NAT is enabled, each once and in the order of
  -- the devices and their services; and it sends all of these where the context is not done and the
  -- reader takes them; the calls to the devices return.
  pub discover_devices_offers :
      (name : ServiceType → Option String) (turns : ℕ → ℕ → Turn) (devs : List (Device S))
      → IsCalm devs
      → GivesFrom
          ((d i : ℕ) → IsOpen (turns d i))
          (all_nats name devs)
          (discover_devices name turns (ok devs))
  unfolding discover_devices
  discover_devices_offers name turns devs calm =
      visit_devices-GivesFrom name turns _ (λ h. h) 0 devs calm
