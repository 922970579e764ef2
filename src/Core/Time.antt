-- ===== src/Core/Time.antt =====
-- src/core/include/zet/core/time.hpp. A timestamp is its nanoseconds since the clock's epoch, which
-- the monotonic clock never reports below zero, and a duration is one that no limit makes negative.
use zet.Prelude.{ℕ, ◌≡◌, Bool, true, false, Option, none, some, arith, leb, if◌then◌else◌, ◌↔◌, ◌⊎◌}

abbrev pub Timestamp : Type 0
Timestamp = ℕ

abbrev pub Duration : Type 0
Duration = ℕ

-- `IsSet_` and `At_` in one: a deadline that is not set has no time.
abbrev pub Deadline : Type 0
Deadline = Option Timestamp

unfoldable pub has_expired : Deadline → Timestamp → Bool
has_expired none now = false
has_expired (some at) now = leb at now

unfoldable pub earliest : Deadline → Deadline → Deadline
earliest none b = b
earliest (some a) none = some a
earliest (some a) (some b) = if leb a b then some a else some b

-- A deadline taken as the earlier of two has expired exactly when one of them has.
pub has_expired-earliest :
    (a b : Deadline) (now : Timestamp)
    → (has_expired (earliest a b) now ≡ true)
      ↔ ((has_expired a now ≡ true) ⊎ (has_expired b now ≡ true))
unfolding has_expired earliest
has_expired-earliest none none now = ground arith
has_expired-earliest none (some b) now = ground arith
has_expired-earliest (some a) none now = ground arith
has_expired-earliest (some a) (some b) now = ground arith
