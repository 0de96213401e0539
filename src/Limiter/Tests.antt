-- ===== src/Limiter/Tests.antt =====
-- The limiters on a table of one key.
use dreamsso.Common.{String, none, List, [], ◌∷◌, ◌≤◌, ◌+◌, refl, arith}
use dreamsso.Redis.Table.{Entries, table}
use dreamsso.Limiter.{Sends}
use dreamsso.Limiter.Capped.{Call, reserve_at, release_at, InOrder}
use dreamsso.Limiter.Daily.{registration_sends, reset_sends, sends_per_day}

abbrev no_keys : Entries Sends
no_keys key = none

abbrev same_text : String → String
same_text s = s

-- Two sends at once, the second of which waits; one given back; later sends.
abbrev day_of_calls : List Call
day_of_calls =
    reserve_at 1000
    ∷ reserve_at 2000
    ∷ release_at 3000
    ∷ reserve_at 4000
    ∷ reserve_at 900000
    ∷ reserve_at 2000000
    ∷ []

in_order : InOrder 86400 1 1000 day_of_calls
unfolding InOrder
in_order = (
  omega arith,
  omega arith,
  (
    omega arith,
    omega arith,
    (
      omega arith,
      omega arith,
      (omega arith, omega arith, (omega arith, omega arith, (omega arith, omega arith, tt))),
    ),
  ),
)

sends_per_day_example :
    ((registration_sends (table Sends) same_text "a@b" day_of_calls no_keys).granted
      ≤ 5 + (registration_sends (table Sends) same_text "a@b" day_of_calls no_keys).released)
    × ((reset_sends (table Sends) same_text "a@b" day_of_calls no_keys).granted
        ≤ 3 + (reset_sends (table Sends) same_text "a@b" day_of_calls no_keys).released)
sends_per_day_example =
    sends_per_day (table Sends) same_text "a@b" 1000 no_keys day_of_calls refl in_order
