-- ===== src/Sampler/Ring.antt =====
-- firmware/bsp_drivers/sampler.cpp, `struct AveragingRingBuffer`.
use ti_am62x_evse_sdk.Prelude.{
  ℕ, ◌+◌, ◌/◌, Bool, true, false, List, [], ◌∷◌, ltb, ◌==◌, if◌then◌else◌, set,
}
use ti_am62x_evse_sdk.Prelude.Word.{u16, u32, sub32}

abbrev pub cp_sample_size : ℕ
cp_sample_size = 10

abbrev pub cp_sample_max_deviation : ℕ
cp_sample_max_deviation = 400

abbrev pub cp_sample_max_misfits : ℕ
cp_sample_max_misfits = 1

abbrev pub pp_sample_max_deviation : ℕ
pp_sample_max_deviation = 500

pub record AveragingRingBuffer : Type 0 where
  pub filled : Bool
  pub average : ℕ  -- uint32_t
  pub misfits_count : ℕ  -- uint16_t
  pub cur_idx : ℕ  -- uint16_t
  pub values : List ℕ  -- uint16_t[CP_SAMPLE_SIZE]
  pub max_deviation : ℕ  -- uint16_t

-- The constructor: `memset` clears the values.
unfoldable pub new : ℕ → AveragingRingBuffer
new max_deviation = record {
  filled = false;
  average = 0;
  misfits_count = 0;
  cur_idx = 0;
  values = 0 ∷ 0 ∷ 0 ∷ 0 ∷ 0 ∷ 0 ∷ 0 ∷ 0 ∷ 0 ∷ 0 ∷ [];
  max_deviation = max_deviation;
}

-- The first loop: `average += values[i]` on uint32_t.
unfoldable pub accumulate : ℕ → List ℕ → ℕ
accumulate acc [] = acc
accumulate acc (v ∷ vs) = accumulate (u32 (acc + v)) vs

-- `(value > average) ? (value - average) : (average - value)`, stored in a uint16_t
unfoldable pub deviation : ℕ → ℕ → ℕ
deviation average value =
    u16 (if ltb average value then sub32 value average else sub32 average value)

-- The second loop: `misfits_count++` on uint16_t.
unfoldable pub count_misfits : ℕ → ℕ → ℕ → List ℕ → ℕ
count_misfits limit average n [] = n
count_misfits limit average n (v ∷ vs) =
    count_misfits limit average (if ltb limit (deviation average v) then u16 (n + 1) else n) vs

-- `values[cur_idx] = new_value`, and the move of the index.
unfoldable pub store : ℕ → AveragingRingBuffer → AveragingRingBuffer
store new_value b =
    let next = u16 (b.cur_idx + 1) in
    if next == cp_sample_size
    then record b { values = set b.values b.cur_idx new_value; cur_idx = 0; filled = true }
    else record b { values = set b.values b.cur_idx new_value; cur_idx = next }

-- The average and the deviations.
unfoldable pub evaluate : AveragingRingBuffer → AveragingRingBuffer
evaluate b =
    let average = accumulate 0 b.values / cp_sample_size in
    record b { average = average; misfits_count = count_misfits b.max_deviation average 0 b.values }

unfoldable pub add_value : ℕ → AveragingRingBuffer → AveragingRingBuffer
add_value new_value b = evaluate (store new_value b)
