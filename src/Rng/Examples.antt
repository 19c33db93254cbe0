-- ===== src/Rng/Examples.antt =====
-- Draws from a worker whose state is zero.
use plecto.Prelude.{◌≡◌, refl, some}
use plecto.Rng.{mix, next_u64, below, reject, two_distinct_below}

-- The first output of the reference `splitmix64` for the seed 0.
reference : (next_u64 0).1 ≡ 0xE220A8397B1DCDAF
unfolding next_u64 mix
reference = refl

two_of_three : two_distinct_below 1 3 0 ≡ some (0x3C6EF372FE94F82A, (2, 0))
unfolding two_distinct_below below reject next_u64 mix
two_of_three = refl
