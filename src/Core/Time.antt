-- ===== src/Core/Time.antt =====
-- des-core/src/time.rs: `SimTime`, nanoseconds since the start in a u64. A `std::time::Duration` is
-- its number of nanoseconds, which may exceed a u64.
use des_cartes.Prelude.{
  ℕ, ◌+◌, ◌-◌, ◌≤◌, min, ◌≡◌, refl, Option, none, some, arith, leb, if◌then◌else◌, u64_max, mul_u64,
  saturating_add, saturating_mul, checked_add, checked_sub, u64_try_from,
}

abbrev pub SimTime : Type 0
SimTime = ℕ

abbrev pub Duration : Type 0
Duration = ℕ

-- What `Option::unwrap_or` gives.
abbrev unwrap_or : Option ℕ → ℕ → ℕ
unwrap_or none d = d
unwrap_or (some n) d = n

abbrev pub time_zero : SimTime
time_zero = 0

abbrev pub from_nanos : ℕ → SimTime
from_nanos nanos = nanos

unfoldable pub from_micros : ℕ → SimTime
from_micros micros = mul_u64 micros 1_000

unfoldable pub from_millis : ℕ → SimTime
from_millis millis = mul_u64 millis 1_000_000

unfoldable pub from_secs : ℕ → SimTime
from_secs secs = mul_u64 secs 1_000_000_000

unfoldable pub from_duration : Duration → SimTime
from_duration duration = unwrap_or (u64_try_from duration) u64_max

unfoldable pub try_from_duration : Duration → Option SimTime
try_from_duration duration = u64_try_from duration

abbrev pub as_duration : SimTime → Duration
as_duration t = t

unfoldable pub duration_since : SimTime → SimTime → Duration
duration_since t earlier = t - earlier

unfoldable pub checked_duration_since : SimTime → SimTime → Option Duration
checked_duration_since t earlier = checked_sub t earlier

unfoldable pub add_duration : SimTime → Duration → SimTime
add_duration t duration = saturating_add t (unwrap_or (u64_try_from duration) u64_max)

unfoldable pub checked_add_duration : SimTime → Duration → Option SimTime
checked_add_duration t duration = elim (u64_try_from duration) [
  | none ↦ none
  | some nanos ↦ checked_add t nanos
]

unfoldable pub sub_duration : SimTime → Duration → SimTime
sub_duration t duration = t - unwrap_or (u64_try_from duration) u64_max

unfoldable pub checked_sub_duration : SimTime → Duration → Option SimTime
checked_sub_duration t duration = elim (u64_try_from duration) [
  | none ↦ none
  | some nanos ↦ checked_sub t nanos
]

-- `SimTime + SimTime`.
unfoldable pub add_time : SimTime → SimTime → SimTime
add_time t rhs = saturating_add t rhs

unfoldable pub mul_time : SimTime → ℕ → SimTime
mul_time t rhs = saturating_mul t rhs

-- The saturating operations give the true sum and difference, cut to the range of a u64.
pub add_duration-min : (t d : ℕ) → t ≤ u64_max → add_duration t d ≡ min (t + d) u64_max
unfolding add_duration
add_duration-min t d h = ground arith

pub sub_duration-sub : (t d : ℕ) → t ≤ u64_max → sub_duration t d ≡ t - d
unfolding sub_duration
sub_duration-sub t d h = ground arith

-- For a time in range, the checked sum is the saturating one if the true sum is in range and is
-- missing otherwise, and the checked difference is the saturating one if the duration is at most
-- the time and is missing otherwise.
pub checked-eq-saturating :
    (t d : ℕ)
    → t ≤ u64_max
    → (checked_add_duration t d ≡ (if leb (t + d) u64_max then some (add_duration t d) else none))
      × (checked_sub_duration t d ≡ (if leb d t then some (sub_duration t d) else none))
unfolding checked_add_duration checked_sub_duration add_duration sub_duration
checked-eq-saturating t d h = ground arith

-- If the sum of a time and a duration is in range, subtracting the time gives the duration, and
-- subtracting the duration gives the time.
pub duration_since-add_duration :
    (t d : ℕ)
    → t + d ≤ u64_max
    → (duration_since (add_duration t d) t ≡ d) × (sub_duration (add_duration t d) d ≡ t)
unfolding duration_since add_duration sub_duration
duration_since-add_duration t d h = ground arith

pub add_time-min : (t d : ℕ) → add_time t d ≡ min (t + d) u64_max
unfolding add_time
add_time-min t d = refl

pub add_time_bounds : (t d : ℕ) → t ≤ u64_max → (t ≤ add_time t d) × (add_time t d ≤ u64_max)
unfolding add_time
add_time_bounds t d h = omega arith
