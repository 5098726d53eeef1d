-- ===== src/Mesh/Clock.antt =====
-- `UniqueClock` of mesh/clock.py; the reading of the wall clock is an argument.
use meshelle.Prelude.{List, [], arith, if◌then◌else◌, ltb, ℕ, ◌+◌, ◌<◌, ◌∷◌}

-- A reading of the clock as a `datetime`, which the standard library computes.
pub record Datetime : Type 0 where
  pub hour : ℕ
  pub minute : ℕ
  pub day : ℕ
  pub month : ℕ
  pub year : ℕ

-- The new high-water mark, which is what `unique_now` returns.
unfoldable pub unique_now : ℕ → ℕ → ℕ
unique_now last_unique current = if ltb last_unique current then current else last_unique + 1

-- What a series of calls returns, one for each reading of the wall clock.
unfoldable pub unique_series : ℕ → List ℕ → List ℕ
unfolding unique_now
unique_series last_unique [] = []
unique_series last_unique (current ∷ readings) =
    unique_now last_unique current ∷ unique_series (unique_now last_unique current) readings

-- Every value is above a bound and below all the later ones.
abbrev pub RisesFrom : ℕ → List ℕ → Type 0
RisesFrom bound [] = Unit {0}
RisesFrom bound (n ∷ ns) = (bound < n) × RisesFrom n ns

-- However the wall clock moves between the calls, backwards included, the values that a series of
-- calls returns rise strictly, from the high-water mark on.
pub unique_series-RisesFrom :
    (last_unique : ℕ) (readings : List ℕ)
    → RisesFrom last_unique (unique_series last_unique readings)
unfolding unique_series unique_now
unique_series-RisesFrom last_unique [] = tt
unique_series-RisesFrom last_unique (current ∷ readings) =
    (ground arith, unique_series-RisesFrom (unique_now last_unique current) readings)
