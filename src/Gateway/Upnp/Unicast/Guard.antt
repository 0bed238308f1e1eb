-- ===== src/Gateway/Upnp/Unicast/Guard.antt =====
-- Unicast discovery follows only locations that name the gateway, and each of them once.
use text.Mathlib.TextEquality.{eq_iff}
use go_nat.Base.{
  ◌≡◌, refl, ap, str_eq, Bool, true, false, inl, inr, Option, some, none, String, List, [], ◌∷◌,
  arith,
}
use go_nat.Base.Tests.{Bool-cases, Option-cases}
use go_nat.Base.Lists.{All}
use go_nat.Base.Outcome.{Error, Outcome, ok, err, panic, Outcome-cases}
use go_nat.Base.Bytes.{bytes_eq, bytes_eq→eq}
use go_nat.Addr.{Addr, invalid, v4, v6, unmap}
use go_nat.Gateway.Merge.Moves.{All-weaken}
use go_nat.Gateway.Upnp.Unicast.{
  SsdpResponse, AddrParser, same_addr, location_has_addr, mem, locations_of, Tried, after_fetch,
  after_locations, try_locations, try_targets, discover_unicast, search_targets,
}

abbrev pub Distinct : List String → Type 0
Distinct [] = Unit {0}
Distinct (l ∷ ls) = (mem l ls ≡ false) × Distinct ls

-- A network that answers by `answer` and records the locations asked for, the last one first.
abbrev pub recording :
    {G : Type 0} → (String → Outcome G) → String → List String → List String × Outcome G
recording answer l log = (l ∷ log, answer l)

-- A NAT that is returned is the answer of the last location asked for.
abbrev pub Answered : {G : Type 0} → (String → Outcome G) → List String → Outcome G → Type 0
Answered answer log (ok g) =
    (l : String) × (rest : List String) × (log ≡ (l ∷ rest)) × (answer l ≡ ok g)
Answered answer log (err e) = Unit {0}
Answered answer log panic = Unit {0}

module _ {G : Type 0} (named : String → Bool) (answer : String → Outcome G) where
  -- Every location asked for was named, none was asked for twice, and all of them count as checked.
  abbrev Guarded : List String → List String → Type 0
  Guarded checked log =
      All (λ l. named l ≡ true) log
      × Distinct log
      × ((k : String) → mem k checked ≡ false → mem k log ≡ false)

  abbrev Returned : List String → Option (Outcome G) → Type 0
  Returned log none = Unit {0}
  Returned log (some r) = Answered answer log r

  Guarded-checked :
      (l : String) (checked log : List String) → Guarded checked log → Guarded (l ∷ checked) log
  Guarded-checked l checked log (n, d, c) = (n, d, λ k h. c k (ground arith))

  Guarded-asked :
      (l : String) (checked log : List String)
      → mem l checked ≡ false
      → named l ≡ true
      → Guarded checked log
      → Guarded (l ∷ checked) (l ∷ log)
  Guarded-asked l checked log h t (n, d, c) = ((t, n), (c l h, d), λ k q. ground (arith, c k))

  abbrev Good : Tried (List String) G → Type 0
  Good tried = Guarded tried.checked tried.network × Returned tried.network tried.result

  after_fetch-Good :
      (l : String) (checked log : List String) (next : List String → Tried (List String) G)
      (o : Outcome G)
      → answer l ≡ o
      → Guarded checked (l ∷ log)
      → Good (next (l ∷ log))
      → Good (after_fetch checked next (l ∷ log, o))
  after_fetch-Good l checked log next (ok g) e h k = (h, (l, log, refl, e))
  after_fetch-Good l checked log next (err x) e h k = k
  after_fetch-Good l checked log next panic e h k = (h, tt)

  try_locations-Good :
      (ls checked log : List String)
      → Guarded checked log
      → Good (try_locations named (recording answer) ls checked log)
  unfolding try_locations
  try_locations-Good [] checked log h = (h, tt)
  try_locations-Good (l ∷ ls) checked log h = elim (Bool-cases (mem l checked)) [
    | inl y ↦ rw (try_locations, y) (try_locations-Good ls checked log h)
    | inr y ↦ elim (Bool-cases (named l)) [
      | inl t ↦
          let h' = Guarded-asked l checked log y t h in
          rw (try_locations, y, t)
            (after_fetch-Good l (l ∷ checked) log
              (λ f. try_locations named (recording answer) ls (l ∷ checked) f) (answer l) refl h'
              (try_locations-Good ls (l ∷ checked) (l ∷ log) h'))
      | inr t ↦
          rw (try_locations, y, t)
            (try_locations-Good ls (l ∷ checked) log (Guarded-checked l checked log h))
    ]
  ]

  -- What a discovery leaves: the locations asked for, and its result.
  abbrev pub Sound : List String × Outcome G → Type 0
  Sound (log, r) = All (λ l. named l ≡ true) log × Distinct log × Answered answer log r

  after_locations-Sound :
      (result : Option (Outcome G)) (checked log : List String) (next : List String × Outcome G)
      → Guarded checked log
      → Returned log result
      → Sound next
      → Sound (after_locations result log next)
  after_locations-Sound none checked log next h r s = s
  after_locations-Sound (some o) checked log next (n, d, c) r s = (n, d, r)

  module _ (ctx_err : String → Option Error) (search : String → Outcome (List SsdpResponse)) where
    try_targets-Sound :
        (ts checked log : List String)
        → Guarded checked log
        → Sound (try_targets named (recording answer) ctx_err search ts checked log)
    unfolding try_targets
    try_targets-Sound [] checked log (n, d, c) = (n, d, tt)
    try_targets-Sound (t ∷ ts) checked log (n, d, c) = elim (Option-cases (ctx_err t)) [
      | inr (e, y) ↦ rw (try_targets, y) (n, d, tt)
      | inl y ↦ elim (Outcome-cases (search t)) [
        | inl (rs, z) ↦
            let tried = try_locations named (recording answer) (locations_of rs) checked log in
            let (h, r) = try_locations-Good (locations_of rs) checked log (n, d, c) in
            rw (try_targets, y, z)
              (after_locations-Sound tried.result tried.checked tried.network _ h r
                (try_targets-Sound ts tried.checked tried.network h))
        | inr (inl (e, z)) ↦ rw (try_targets, y, z) (try_targets-Sound ts checked log (n, d, c))
        | inr (inr z) ↦ rw (try_targets, y, z) (n, d, tt)
      ]
    ]

-- The location is a URL whose host is written as an IP address, and it is `addr`, where an IPv4 address
-- and its form in IPv6 are one.
abbrev pub NamesAddr : AddrParser → Addr → String → Type 0
NamesAddr p addr l =
    (host : String) × (a : Addr) × (p.hostname l ≡ some host)
    × (p.parse_addr host ≡ some a)
    × (unmap a ≡ unmap addr)

same_addr-eq : (a b : Addr) → same_addr a b ≡ true → a ≡ b
same_addr-eq invalid invalid h = refl
same_addr-eq (v4 a) (v4 b) h = ap v4 (bytes_eq→eq a b h)
same_addr-eq (v6 a y) (v6 b z) h =
    let s : bytes_eq a b ≡ true = ground arith in
    let t : str_eq y z ≡ true = ground arith in rw (bytes_eq→eq a b s, (eq_iff y z).0 t) refl
same_addr-eq invalid (v4 b) h = absurd (ground arith)
same_addr-eq invalid (v6 b z) h = absurd (ground arith)
same_addr-eq (v4 a) invalid h = absurd (ground arith)
same_addr-eq (v4 a) (v6 b z) h = absurd (ground arith)
same_addr-eq (v6 a y) invalid h = absurd (ground arith)
same_addr-eq (v6 a y) (v4 b) h = absurd (ground arith)

location_has_addr-NamesAddr :
    (p : AddrParser) (addr : Addr) (l : String)
    → location_has_addr p l addr ≡ true
    → NamesAddr p addr l
unfolding location_has_addr
location_has_addr-NamesAddr p addr l h = elim (Option-cases (p.hostname l)) [
  | inl e ↦ absurd (ground arith)
  | inr (host, e) ↦ elim (Option-cases (p.parse_addr host)) [
    | inl f ↦ absurd (ground arith)
    | inr (a, f) ↦
        (host, a, e, f, same_addr-eq (unmap a) (unmap addr) (rw (location_has_addr, e, f) at h))
  ]
]

-- Unicast discovery asks only for descriptions at locations whose URL names its host by an IP address
-- that is the gateway's own, whoever answered the search, and for none of them twice; and a NAT that
-- it returns is what the last location asked for gave.
pub discover_unicast-Sound :
    {G : Type 0} (p : AddrParser) (answer : String → Outcome G) (ctx_err : String → Option Error)
    (search : String → Outcome (List SsdpResponse)) (addr : Addr)
    → let (log, r) = discover_unicast p (recording answer) ctx_err search addr [] in
      All (NamesAddr p addr) log × Distinct log × Answered answer log r
unfolding discover_unicast
discover_unicast-Sound p answer ctx_err search addr =
    let (named, once, last) =
      try_targets-Sound (λ l. location_has_addr p l addr) answer ctx_err search search_targets [] []
        (tt, tt, λ k h. refl) in
    (
      All-weaken _ (NamesAddr p addr) _ (λ l h. location_has_addr-NamesAddr p addr l h) named,
      once,
      last,
    )
