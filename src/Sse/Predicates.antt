-- ===== src/Sse/Predicates.antt =====
-- The comparisons of floats against the relation of their operands.
use opemu_linux.Common.{ℕ, ◌%◌, ◌<◌, ◌≡◌, not, ◌==◌, bit_and, if◌then◌else◌, ◌||◌}
use opemu_linux.Common.Int.{ltℤ}
use opemu_linux.Sse2.Predicates.{true_for, every_case, never_both}
use opemu_linux.Sse.Compare.{is_nan_f32, rank_f32, cmpoptsf}

-- How two floats stand to each other: less, equal, greater or unordered, as 1, 2, 4 or 8.
unfoldable pub relation_f32 : ℕ → ℕ → ℕ
relation_f32 a b =
    if is_nan_f32 a || is_nan_f32 b
    then 8
    else (if ltℤ (rank_f32 a) (rank_f32 b)
        then 1
        else (if ltℤ (rank_f32 b) (rank_f32 a) then 4 else 2))

-- The 32 predicates of floats are those of doubles: each is true for the relations that it is
-- documented for, and no other.
cmpoptsf-table :
    (a b immvar : ℕ)
    → immvar < 32
    → cmpoptsf a b immvar ≡ not (bit_and (true_for (immvar % 16)) (relation_f32 a b) == 0)
unfolding cmpoptsf relation_f32
cmpoptsf-table a b immvar h =
    every_case immvar h (is_nan_f32 a) (is_nan_f32 b) (ltℤ (rank_f32 a) (rank_f32 b))
      (ltℤ (rank_f32 b) (rank_f32 a)) (never_both (rank_f32 a) (rank_f32 b))
