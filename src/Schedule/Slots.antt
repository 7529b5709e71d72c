-- ===== src/Schedule/Slots.antt =====
-- The times at which a schedule fires.
use native.Mathlib.Omega.{div_any, mod_fact}
use civicpatch_tools.Prelude.{
  ℕ, zero, suc, ◌+◌, ◌-◌, ◌*◌, ◌/◌, ◌≤◌, ◌<◌, ◌≡◌, inl, inr, refl, false, Option, some, arith,
  Bool-cases, ltb, nat_eqb,
}
use civicpatch_tools.Schedule.{day, interval_offset, next_period, next_run_at}

mul_mono : (a b e : ℕ) → a ≤ b → a * e ≤ b * e
mul_mono zero b e h = omega arith
mul_mono (suc a) zero e h = absurd (omega arith)
mul_mono (suc a) (suc b) e h = let ih : a * e ≤ b * e = mul_mono a b e (omega arith) in omega arith

-- One of the times, later than now, and no later than any other that is.
abbrev pub IsNext : ℕ → ℕ → ℕ → ℕ → Type 0
IsNext offset every now time =
    ((n : ℕ) × (time ≡ offset + n * every))
    × (now < time)
    × ((n : ℕ) → now < offset + n * every → time ≤ offset + n * every)

-- A period that is over by now is before one that is not.
period_later :
    (offset every now q n : ℕ) → offset + q * every ≤ now → now < offset + n * every → q + 1 ≤ n
period_later offset every now q n over later = elim (Bool-cases (ltb q n)) [
  | inl t ↦ ground arith
  | inr f ↦
      let m : n ≤ q = ground arith in
      let p = mul_mono n q every m in absurd (omega (arith, p, over, later))
]

-- The next period but those that the quotient counts.
IsNext-after :
    (offset k now : ℕ)
    → offset ≤ now
    → IsNext offset (suc k) now (offset + ((now - offset) / suc k + 1) * suc k)
IsNext-after offset k now h =
    let q = (now - offset) / suc k in
    let split = div_any (now - offset) (suc k) in
    let rest = mod_fact (now - offset) k in
    (
      (q + 1, refl),
      omega (arith, split, rest),
      λ n later.
          (let m : q + 1 ≤ n =
              period_later offset (suc k) now q n (omega (arith, split, rest)) later in
            let p = mul_mono (q + 1) n (suc k) m in omega (arith, p)),
    )

next_period_lem :
    (offset k now : ℕ) → IsNext offset (suc k) now (offset + next_period offset (suc k) now * suc k)
unfolding next_period
next_period_lem offset k now = elim (Bool-cases (ltb now offset)) [
  | inl t ↦ rw t ((0, refl), ground arith, λ n h. omega arith)
  | inr f ↦ rw f (IsNext-after offset k now (ground arith))
]

next_period_of :
    (offset every now : ℕ)
    → 0 < every
    → IsNext offset every now (offset + next_period offset every now * every)
next_period_of offset zero now h = absurd (omega arith)
next_period_of offset (suc k) now h = next_period_lem offset k now

-- With a cadence of at least a day, a schedule has a next run. It is the first of the times that lie
-- a whole number of periods from the anchor's offset and are later than now.
pub next_run_at_lem :
    (days : ℕ) (anchor : Option ℕ) (now : ℕ)
    → 0 < days
    → (time : ℕ) × (next_run_at (some days) anchor now ≡ some (some time))
      × IsNext (interval_offset anchor (days * day)) (days * day) now time
unfolding next_run_at
next_run_at_lem days anchor now h =
    let every = days * day in
    let some_time : nat_eqb every 0 ≡ false = ground arith in
    (_, rw some_time refl, next_period_of (interval_offset anchor every) every now (omega arith))
