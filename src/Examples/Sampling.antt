-- ===== src/Examples/Sampling.antt =====
-- The ring buffer at concrete inputs.
use ti_am62x_evse_sdk.Prelude.{ℕ, ◌≡◌, refl, true, List, [], ◌∷◌, ◌++◌, drop, arith}
use ti_am62x_evse_sdk.Sampler.Ring.{
  AveragingRingBuffer, cp_sample_max_deviation, new, store, accumulate, count_misfits, deviation,
  evaluate, add_value,
}
use ti_am62x_evse_sdk.Sampler.Window.{
  IsValid, Added, window, add_values, add_value-Added, window-add_values,
}

abbrev readings : List ℕ
readings = 2000 ∷ 2010 ∷ 1990 ∷ 2000 ∷ 2005 ∷ 1995 ∷ 2000 ∷ 2000 ∷ 2500 ∷ 2000 ∷ 2000 ∷ 2000 ∷ []

abbrev full : AveragingRingBuffer
full = record {
  filled = true;
  average = 2050;
  misfits_count = 1;
  cur_idx = 2;
  values = 2000 ∷ 2000 ∷ 1990 ∷ 2000 ∷ 2005 ∷ 1995 ∷ 2000 ∷ 2000 ∷ 2500 ∷ 2000 ∷ [];
  max_deviation = 400;
}

readings_kept :
    (add_values readings (new cp_sample_max_deviation)).values
    ≡ 2000 ∷ 2000 ∷ 1990 ∷ 2000 ∷ 2005 ∷ 1995 ∷ 2000 ∷ 2000 ∷ 2500 ∷ 2000 ∷ []
unfolding add_values new store accumulate count_misfits deviation evaluate add_value
readings_kept = refl

readings_misfits : (add_values readings (new cp_sample_max_deviation)).misfits_count ≡ 1
unfolding add_values new store accumulate count_misfits deviation evaluate add_value
readings_misfits = refl

full-IsValid : IsValid full
full-IsValid = omega arith

add_value-Added_example : Added 2100 full (add_value 2100 full)
add_value-Added_example = add_value-Added 2100 full (omega arith) full-IsValid

window-add_values_example :
    IsValid (add_values readings full)
    × (window (add_values readings full) ≡ drop 12 (window full ++ readings))
    × ((add_values readings full).max_deviation ≡ 400)
window-add_values_example = window-add_values readings full (omega arith) full-IsValid
