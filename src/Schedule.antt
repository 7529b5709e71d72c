-- ===== src/Schedule.antt =====
-- civicpatch.org/src/core/scrape_schedule.py: when a state's scrape schedule fires; and
-- civicpatch.org/src/core/spend_limits.py: which cap a month's spending has reached. A time is a count
-- of microseconds from 1970, before which no time of the program lies; a sum of money a count of its
-- smallest unit. The ids of schedules are not modelled.
mod Tests
pub mod Slots
use Prim.Native.Nat.{◌%◌}
use civicpatch_tools.Prelude.{
  ℕ, zero, suc, ◌+◌, ◌-◌, ◌*◌, ◌/◌, Bool, true, false, Option, none, some, ltb, leb, nat_eqb,
  if◌then◌else◌,
}

-- `timedelta(days=1)`
abbrev pub day : ℕ
day = 86400000000

unfoldable pub interval_offset : Option ℕ → ℕ → ℕ
interval_offset none every = 0
interval_offset (some start) every = start % every

-- `periods + 1`: `elapsed // every` rounds down, so it is -1 before the first time.
unfoldable pub next_period : ℕ → ℕ → ℕ → ℕ
next_period offset every now = if ltb now offset then 0 else (now - offset) / every + 1

-- `none` outside is the division by a period of zero days, which raises.
unfoldable pub next_run_at : Option ℕ → Option ℕ → ℕ → Option (Option ℕ)
unfolding interval_offset next_period
next_run_at none cadence_anchor now = some none
next_run_at (some cadence_days) cadence_anchor now =
    let every = cadence_days * day in
    let offset = interval_offset cadence_anchor every in
    if nat_eqb every 0 then none else some (some (offset + next_period offset every now * every))

pub data Cap : Type 0 where
  state_month global_month collector_month : Cap

-- `cap is not None and spent >= cap`
unfoldable pub is_spent : ℕ → Option ℕ → Bool
is_spent spent none = false
is_spent spent (some cap) = leb cap spent

unfoldable pub cap_reached : ℕ → Option ℕ → ℕ → Option ℕ → Option Cap
unfolding is_spent
cap_reached state_spent state_cap global_spent global_cap =
    if is_spent state_spent state_cap
    then some Cap.state_month
    else if is_spent global_spent global_cap
    then some Cap.global_month
    else none

unfoldable pub collector_cap_reached : ℕ → Option ℕ → Option Cap
unfolding is_spent
collector_cap_reached spent cap = if is_spent spent cap then some Cap.collector_month else none
