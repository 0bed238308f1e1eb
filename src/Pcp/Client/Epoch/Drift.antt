-- ===== src/Pcp/Client/Epoch/Drift.antt =====
-- What the epoch check of updateEpochLocked finds: a steady server, a restarted one, and the flag
-- over a history of answers.
use go_nat.Base.{
  ℕ, ◌+◌, ◌-◌, ◌*◌, ◌/◌, ◌≤◌, ◌<◌, ◌≡◌, ◌↔◌, ◌⊎◌, Bool, true, false, ◌||◌, some, List, [], ◌∷◌,
  arith,
}
use go_nat.Pcp.Client.State.{Client, second}
use go_nat.Pcp.Client.Epoch.{
  u32, seconds_since, epoch_delta, out_of_step, loses_state, update_epoch, epoch_state_lost_of,
}

-- The wrapped comparisons are those of RFC 6887 while the intervals stay below 2^32 - 2 seconds.
pub out_of_step_iff :
    (e d : ℕ)
    → e + 2 < u32
    → d + 2 < u32
    → (out_of_step e d ≡ true) ↔ ((e + 2 < d - d / 16) ⊎ (d + 2 < e - e / 16))
unfolding out_of_step
out_of_step_iff e d he hd = ground arith

steady_out_of_step :
    (e d : ℕ) → e + 2 < u32 → d + 2 < u32 → e ≤ d + 2 → d ≤ e + 2 → out_of_step e d ≡ false
unfolding out_of_step
steady_out_of_step e d he hd a b = ground arith

restarted_out_of_step : (e d : ℕ) → e + 2 < u32 → 16 * (e + 3) ≤ 15 * d → out_of_step e d ≡ true
unfolding out_of_step
restarted_out_of_step e d he far = ground arith

since :
    (before now : ℕ)
    → (now - before) / second + 2 < u32
    → seconds_since before now ≡ (now - before) / second
unfolding seconds_since
since before now h = omega arith

forward : (last new : ℕ) → last ≤ new → new < u32 → epoch_delta last new ≡ new - last
unfolding epoch_delta
forward last new h k = omega arith

backward : (last new : ℕ) → new < last → last < u32 → epoch_delta last new ≡ u32 - (last - new)
unfolding epoch_delta
backward last new h k = omega arith

-- A server that kept its state: between two answers its epoch and the client's clock advance by the
-- same number of seconds, give or take two. The check then reports no loss and leaves the flag.
pub update_epoch-steady :
    (c : Client) (before now new : ℕ)
    → c.epoch_time ≡ some before
    → c.last_epoch ≤ new
    → new < u32
    → (now - before) / second + 2 < u32
    → new - c.last_epoch + 2 < u32
    → (now - before) / second ≤ new - c.last_epoch + 2
    → new - c.last_epoch ≤ (now - before) / second + 2
    → ((update_epoch now new c).1 ≡ false)
      × ((update_epoch now new c).0.epoch_state_lost ≡ c.epoch_state_lost)
unfolding update_epoch loses_state
update_epoch-steady c before now new t mono fits he hd a b = ground (
  arith,
  steady_out_of_step e d he hd a b,
  since before now he,
  forward c.last_epoch new mono fits,
)
  where
    e : ℕ
    e = (now - before) / second

    d : ℕ
    d = new - c.last_epoch

-- A server that started again: its epoch has gone back. The check reports it whenever the time
-- between the two answers stays clear of the wrapped distance, and the flag is set.
pub update_epoch-restart :
    (c : Client) (before now new : ℕ)
    → c.epoch_time ≡ some before
    → c.last_epoch < u32
    → new < c.last_epoch
    → (now - before) / second + 2 < u32
    → 16 * ((now - before) / second + 3) ≤ 15 * (u32 - (c.last_epoch - new))
    → ((update_epoch now new c).1 ≡ true) × ((update_epoch now new c).0.epoch_state_lost ≡ true)
unfolding update_epoch loses_state
update_epoch-restart c before now new t fits back he far = ground (
  arith,
  restarted_out_of_step e d he far,
  since before now he,
  backward c.last_epoch new back fits,
)
  where
    e : ℕ
    e = (now - before) / second

    d : ℕ
    d = u32 - (c.last_epoch - new)

-- A history of answers, each with its time and epoch, and whether one of them showed a loss.
abbrev pub record_answers : List (ℕ × ℕ) → Client → Client
record_answers [] c = c
record_answers ((now, epoch) ∷ hist) c = record_answers hist (update_epoch now epoch c).0

abbrev pub any_loss : List (ℕ × ℕ) → Client → Bool
any_loss [] c = false
any_loss ((now, epoch) ∷ hist) c =
    loses_state now epoch c || any_loss hist (update_epoch now epoch c).0

flag-record_answers :
    (hist : List (ℕ × ℕ)) (c : Client)
    → (record_answers hist c).epoch_state_lost ≡ c.epoch_state_lost || any_loss hist c
unfolding update_epoch
flag-record_answers [] c = ground arith
flag-record_answers ((now, epoch) ∷ hist) c =
    ground (arith, flag-record_answers hist (update_epoch now epoch c).0)

-- EpochStateLost answers true exactly when an answer since the last call showed a loss, however many
-- good answers followed it, and a second call answers false.
pub epoch_state_lost_of-history :
    (hist : List (ℕ × ℕ)) (c : Client)
    → c.epoch_state_lost ≡ false
    → ((epoch_state_lost_of (record_answers hist c)).1 ≡ any_loss hist c)
      × ((epoch_state_lost_of (epoch_state_lost_of (record_answers hist c)).0).1 ≡ false)
unfolding epoch_state_lost_of
epoch_state_lost_of-history hist c h = ground (arith, flag-record_answers hist c)
