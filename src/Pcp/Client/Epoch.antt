-- ===== src/Pcp/Client/Epoch.antt =====
-- pcp/client.go: the epoch of the server (RFC 6887, section 8.5).
pub mod Drift
use go_nat.Base.{
  ℕ, ◌+◌, ◌-◌, ◌/◌, ◌%◌, ◌^◌, Bool, true, false, ◌&&◌, ◌||◌, Option, some, none, arith,
}
use go_nat.Base.Tests.{ltb, if◌then◌else◌}
use go_nat.Pcp.Client.State.{Client, second}

abbrev pub u32 : ℕ
u32 = 2 ^ 32

-- `uint32(now.Sub(then).Seconds())`, on a clock that does not run backwards.
unfoldable pub seconds_since : ℕ → ℕ → ℕ
seconds_since before now = (now - before) / second % u32

-- `newEpoch - c.lastEpoch` on uint32.
unfoldable pub epoch_delta : ℕ → ℕ → ℕ
epoch_delta last new = (new + u32 - last) % u32

-- The two comparisons, on uint32.
unfoldable pub out_of_step : ℕ → ℕ → Bool
out_of_step client_delta server_delta =
    ltb ((client_delta + 2) % u32) (server_delta - server_delta / 16)
    || ltb ((server_delta + 2) % u32) (client_delta - client_delta / 16)

-- Whether the answer at time `now` with the epoch `new` shows that the server lost its state.
unfoldable pub loses_state : ℕ → ℕ → Client → Bool
loses_state now new c = elim c.epoch_time [
  | none ↦ false
  | some before ↦
      ltb 0 c.last_epoch && out_of_step (seconds_since before now) (epoch_delta c.last_epoch new)
]

-- updateEpochLocked, with its result.
unfoldable pub update_epoch : ℕ → ℕ → Client → Client × Bool
update_epoch now new c =
    let lost = loses_state now new c in
    (
      record c {
        epoch_state_lost = c.epoch_state_lost || lost;
        last_epoch = new;
        epoch_time = some now;
      },
      lost,
    )

-- EpochStateLost: the flag is read and cleared.
unfoldable pub epoch_state_lost_of : Client → Client × Bool
epoch_state_lost_of c = (record c { epoch_state_lost = false }, c.epoch_state_lost)
