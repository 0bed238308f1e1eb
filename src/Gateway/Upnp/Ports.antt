-- ===== src/Gateway/Upnp/Ports.antt =====
-- What AddPortMapping and DeletePortMapping of UPnP do to the device and to the cache of ports.
use go_nat.Base.{ℕ, ◌≡◌, refl, inl, inr, Bool, true, false, Option, some, none, String, List, arith}
use go_nat.Base.Tests.{if◌then◌else◌, Option-cases}
use go_nat.Base.Int.{ℤ}
use go_nat.Base.Outcome.{Outcome, ok, err, panic}
use go_nat.Base.Assoc.{lookup, lookup-delete}
use go_nat.Context.{Context}
use go_nat.Gateway.Upnp.{
  UpnpClient, UpnpMappingKey, same_key, upnp_key_eq, UpnpNat, UpnpCall, ask, locked_delete,
  delete_port_mapping, after_delete, key_of, map_protocol,
}

abbrev pub granted : Outcome (Unit {0}) → Bool
granted (ok _) = true
granted (err e) = false
granted panic = false

module _ {D : Type 0} (client : UpnpClient D) (ctx : Context) where
  -- What an AddPortMapping for `call` has done to the cache `ports`. With a port, the last request to
  -- the device was for that port, and granted; the port is now cached for the call's key, and the
  -- other entries stay. With an error, that is the device's for its last request, and the cache stays.
  abbrev pub Added : String → UpnpCall → List (UpnpMappingKey × ℕ) → UpnpNat D × Outcome ℕ → Type 0
  Added description call ports (u, ok port) =
      ((d : D) × (ask client ctx description call port d ≡ (u.device, ok tt)))
      × ((k : UpnpMappingKey)
          → lookup k u.ports ≡ (if same_key call.key k then some port else lookup k ports))
  Added description call ports (u, err e) =
      ((d : D) × (port : ℕ) × (ask client ctx description call port d ≡ (u.device, err e)))
      × (u.ports ≡ ports)
  Added description call ports (u, panic) = u.ports ≡ ports

  -- What a DeletePortMapping has done: nothing for a key that is not cached; otherwise the device was
  -- asked to remove the cached port, and the entry is gone exactly where it agreed.
  abbrev pub Deleted :
      UpnpMappingKey → UpnpNat D → Option ℕ → UpnpNat D × Outcome (Unit {0}) → Type 0
  Deleted key u none (u', r) = (r ≡ ok tt) × (u' ≡ u)
  Deleted key u (some external) (u', r) =
      (client.delete_port_mapping ctx external key.protocol u.device ≡ (u'.device, r))
      × ((k : UpnpMappingKey)
          → lookup k u'.ports ≡ (
              if same_key key k
              then (if granted r then none else lookup k u.ports)
              else lookup k u.ports))

  after_delete-Deleted :
      (key : UpnpMappingKey) (u : UpnpNat D) (external : ℕ) (p : D × Outcome (Unit {0}))
      → client.delete_port_mapping ctx external key.protocol u.device ≡ p
      → Deleted key u (some external) (after_delete key u p)
  after_delete-Deleted key u external (d, ok _) h = (h, λ k. lookup-delete key k u.ports)
  after_delete-Deleted key u external (d, err e) h = (h, λ k. ground arith)
  after_delete-Deleted key u external (d, panic) h = (h, λ k. ground arith)

  -- DeletePortMapping for a valid protocol: where nothing is cached for the protocol and port, it
  -- succeeds and does nothing; otherwise it answers what the device answers to the removal of the
  -- cached port, and forgets the entry exactly where the device has confirmed, and no other entry.
  pub delete_port_mapping-Deleted :
      (protocol proto : String) (internal_port : ℤ) (u : UpnpNat D)
      → map_protocol protocol ≡ ok proto
      → Deleted
          (key_of proto internal_port)
          u
          (lookup (key_of proto internal_port) u.ports)
          (delete_port_mapping client ctx protocol internal_port u)
  unfolding delete_port_mapping locked_delete
  delete_port_mapping-Deleted protocol proto internal_port u h =
      let key = key_of proto internal_port in
      elim (Option-cases (lookup key u.ports)) [
        | inl n ↦ rw (delete_port_mapping, h, locked_delete, n) (refl, refl)
        | inr (external, y) ↦
            rw (delete_port_mapping, h, locked_delete, y)
              (after_delete-Deleted key u external _ refl)
      ]
