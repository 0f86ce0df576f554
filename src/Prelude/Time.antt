-- ===== src/Prelude/Time.antt =====
-- Go's `time.Time` and `time.Duration`. A time is the count of nanoseconds since the zero time
-- (year 1), so `IsZero` is a test against 0. A duration that may be negative is an integer; one
-- that the program only compares with 0 from below is a number.
use Prim.Native.Nat.{ℕ, zero, suc, ◌+◌, ◌-◌, ◌*◌, ◌/◌, ◌%◌}
use Prim.Native.String.{String, ◌++◌}
use mathlib.Core.Bool.{Bool}
use wealthfolio_connect_self.Prelude.Tests.{ltb, leb, ◌==◌, if◌then◌else◌}
use wealthfolio_connect_self.Prelude.Int.{ℤ, pos, negsuc, pos_part, neg_part, sub_ℕ}

abbrev pub second : ℕ
second = 1_000_000_000

abbrev pub minute : ℕ
minute = 60 * second

abbrev pub hour : ℕ
hour = 60 * minute

-- `t.IsZero()`
abbrev pub is_zero : ℕ → Bool
is_zero t = t == 0

-- `a.After(b)`
abbrev pub after : ℕ → ℕ → Bool
after a b = ltb b a

-- `a.Before(b)`
abbrev pub before : ℕ → ℕ → Bool
before a b = ltb a b

-- Seconds from the zero time to 1970-01-01.
abbrev pub unix_epoch : ℕ
unix_epoch = 62135596800

-- `t.Unix()`: the epoch is a whole second, so the floor of the difference is this difference.
abbrev pub unix : ℕ → ℤ
unix t = sub_ℕ (t / second) unix_epoch

-- `time.Unix(v, 0)`. Seconds before year 1 are no time here: they give the zero time.
abbrev pub from_unix : ℤ → ℕ
from_unix v = (pos_part v + unix_epoch - neg_part v) * second

-- `t.UnixNano()`
abbrev pub unix_nano : ℕ → ℤ
unix_nano t = sub_ℕ t (unix_epoch * second)

-- The largest `time.Duration`, about 292 years.
abbrev pub max_duration : ℕ
max_duration = 9_223_372_036_854_775_807

-- `a.Sub(b)`, which stops at the largest and at the smallest duration.
abbrev pub sub_time : ℕ → ℕ → ℤ
sub_time a b =
    if leb b a
    then pos (if ltb max_duration (a - b) then max_duration else a - b)
    else negsuc (if ltb max_duration (b - a - 1) then max_duration else b - a - 1)

-- `-d` on 64 bits: the smallest duration has no opposite, and stays what it is.
abbrev pub negate : ℤ → ℤ
negate (pos zero) = pos 0
negate (pos (suc n)) = negsuc n
negate (negsuc n) = if n == max_duration then negsuc n else pos (suc n)

digit : ℕ → String
digit d =
    if d == 0
    then "0"
    else if d == 1
    then "1"
    else if d == 2
    then "2"
    else if d == 3
    then "3"
    else if d == 4
    then "4"
    else if d == 5
    then "5"
    else if d == 6
    then "6"
    else if d == 7
    then "7"
    else if d == 8
    then "8"
    else "9"

-- A number below 10 ^ fuel takes `fuel` rounds at most.
digits_of : ℕ → ℕ → String → String
digits_of zero n out = out
digits_of (suc fuel) n out =
    let text = digit (n % 10) ++ out in
    let rest = digits_of fuel (n / 10) text in if n / 10 == 0 then text else rest

-- `%d` of a 64-bit integer, which has 20 digits at most.
unfoldable pub decimal : ℤ → String
unfolding digits_of digit
decimal (pos n) = digits_of 20 n ""
decimal (negsuc n) = "-" ++ digits_of 20 (suc n) ""
