-- ===== src/Sampler/Window.antt =====
-- firmware/bsp_drivers/sampler.cpp: the ring buffer against a sliding window, the list of the last
-- ten values, oldest first.
use ti_am62x_evse_sdk.Prelude.{
  append-nil, append_assoc, dec_lt, ℕ, zero, suc, ◌+◌, ◌-◌, ◌*◌, ◌/◌, ◌%◌, ◌^◌, ◌≤◌, ◌<◌, ◌≡◌, refl,
  sym, ap, ◌∙◌, true, List, [], ◌∷◌, ◌++◌, ◌||◌, ltb, ◌==◌, if◌then◌else◌, length, length-set,
  length-append, set, take, drop, arith,
}
use ti_am62x_evse_sdk.Prelude.Word.{u16}
use ti_am62x_evse_sdk.Sampler.Ring.{
  AveragingRingBuffer, accumulate, deviation, count_misfits, store, evaluate, add_value,
}

abbrev pub sum : List ℕ → ℕ
sum [] = 0
sum (v ∷ vs) = v + sum vs

-- The distance of two numbers.
abbrev pub dist : ℕ → ℕ → ℕ
dist a b = a - b + (b - a)

-- How many values lie further than `limit` from `mean`.
abbrev pub outliers : ℕ → ℕ → List ℕ → ℕ
outliers limit mean [] = 0
outliers limit mean (v ∷ vs) = (if ltb limit (dist v mean) then 1 else 0) + outliers limit mean vs

-- Every value is a uint16_t.
abbrev pub AllU16 : List ℕ → Type 0
AllU16 [] = Unit
AllU16 (v ∷ vs) = (v < 2 ^ 16) × AllU16 vs

-- The values in the order of their arrival.
abbrev pub window : AveragingRingBuffer → List ℕ
window b = drop b.cur_idx b.values ++ take b.cur_idx b.values

pub record IsValid (b : AveragingRingBuffer) : Type 0 where
  pub index : b.cur_idx < 10
  pub size : length b.values ≡ 10
  pub words : AllU16 b.values

sum-append : (xs ys : List ℕ) → sum (xs ++ ys) ≡ sum xs + sum ys
sum-append [] ys = omega arith
sum-append (x ∷ xs) ys = omega (arith, sum-append xs ys)

outliers-append :
    (k m : ℕ) (xs ys : List ℕ) → outliers k m (xs ++ ys) ≡ outliers k m xs + outliers k m ys
outliers-append k m [] ys = omega arith
outliers-append k m (x ∷ xs) ys = omega (arith, outliers-append k m xs ys)

sum-rotate : (n : ℕ) (xs : List ℕ) → sum (drop n xs ++ take n xs) ≡ sum xs
sum-rotate zero xs = omega (arith, sum-append xs [])
sum-rotate (suc n) [] = refl
sum-rotate (suc n) (x ∷ xs) = omega (
  arith,
  sum-rotate n xs,
  sum-append (drop n xs) (take n xs),
  sum-append (drop n xs) (x ∷ take n xs),
)

outliers-rotate :
    (k m n : ℕ) (xs : List ℕ) → outliers k m (drop n xs ++ take n xs) ≡ outliers k m xs
outliers-rotate k m zero xs = omega (arith, outliers-append k m xs [])
outliers-rotate k m (suc n) [] = refl
outliers-rotate k m (suc n) (x ∷ xs) = omega (
  arith,
  outliers-rotate k m n xs,
  outliers-append k m (drop n xs) (take n xs),
  outliers-append k m (drop n xs) (x ∷ take n xs),
)

-- No sum of at most ten uint16_t wraps a uint32_t.
sum-le : (xs : List ℕ) → AllU16 xs → sum xs ≤ length xs * 65535
sum-le [] w = omega arith
sum-le (x ∷ xs) w = omega (arith, sum-le xs w.1)

accumulate-eq-sum :
    (acc : ℕ) (xs : List ℕ) → acc + sum xs < 2 ^ 32 → accumulate acc xs ≡ acc + sum xs
unfolding accumulate
accumulate-eq-sum acc [] h = omega arith
accumulate-eq-sum acc (x ∷ xs) h =
    let e : (acc + x) % 2 ^ 32 ≡ acc + x = omega arith in
    rw e (accumulate-eq-sum (acc + x) xs (omega arith) ∙ omega arith)

deviation-eq-dist : (m v : ℕ) → m < 2 ^ 16 → v < 2 ^ 16 → deviation m v ≡ dist v m
unfolding deviation
deviation-eq-dist m v hm hv = ground arith

count_misfits-eq-outliers :
    (k m n : ℕ) (xs : List ℕ)
    → m < 2 ^ 16
    → AllU16 xs
    → n + length xs < 2 ^ 16
    → count_misfits k m n xs ≡ n + outliers k m xs
unfolding count_misfits
count_misfits-eq-outliers k m n [] hm w h = omega arith
count_misfits-eq-outliers k m n (x ∷ xs) hm w h = ground (
  arith,
  deviation-eq-dist m x hm w.0,
  count_misfits-eq-outliers k m n xs hm w.1,
  count_misfits-eq-outliers k m (u16 (n + 1)) xs hm w.1,
)

drop-set : (xs : List ℕ) (i v : ℕ) → drop (suc i) (set xs i v) ≡ drop (suc i) xs
drop-set [] i v = refl
drop-set (x ∷ xs) zero v = refl
drop-set (x ∷ xs) (suc i) v = drop-set xs i v

take-set :
    (xs : List ℕ) (i v : ℕ) → i < length xs → take (suc i) (set xs i v) ≡ take i xs ++ (v ∷ [])
take-set [] i v h = absurd (omega arith)
take-set (x ∷ xs) zero v h = refl
take-set (x ∷ xs) (suc i) v h = ap (λ l. x ∷ l) (take-set xs i v (omega arith))

drop_one-drop :
    (xs ys : List ℕ) (i : ℕ) → i < length xs → drop 1 (drop i xs ++ ys) ≡ drop (suc i) xs ++ ys
drop_one-drop [] ys i h = absurd (omega arith)
drop_one-drop (x ∷ xs) ys zero h = refl
drop_one-drop (x ∷ xs) ys (suc i) h = drop_one-drop xs ys i (omega arith)

drop_all : (xs : List ℕ) (n : ℕ) → n ≡ length xs → drop n xs ≡ []
drop_all [] zero h = refl
drop_all [] (suc n) h = refl
drop_all (x ∷ xs) zero h = absurd (omega arith)
drop_all (x ∷ xs) (suc n) h = drop_all xs n (omega arith)

take_all : (xs : List ℕ) (n : ℕ) → n ≡ length xs → take n xs ≡ xs
take_all [] zero h = refl
take_all [] (suc n) h = refl
take_all (x ∷ xs) zero h = absurd (omega arith)
take_all (x ∷ xs) (suc n) h = ap (λ l. x ∷ l) (take_all xs n (omega arith))

AllU16-set : (xs : List ℕ) (i v : ℕ) → AllU16 xs → v < 2 ^ 16 → AllU16 (set xs i v)
AllU16-set [] i v w h = tt
AllU16-set (x ∷ xs) zero v w h = (h, w.1)
AllU16-set (x ∷ xs) (suc i) v w h = (w.0, AllU16-set xs i v w.1 h)

module _ (xs : List ℕ) (i v : ℕ) (n : length xs ≡ 10) where
  rotate-set_inside :
      i < 9
      → drop (suc i) (set xs i v) ++ take (suc i) (set xs i v)
        ≡ drop 1 (drop i xs ++ take i xs) ++ (v ∷ [])
  rotate-set_inside lt =
      rw
        (
          drop-set xs i v,
          take-set xs i v (omega arith),
          drop_one-drop xs (take i xs) i (omega arith),
        )
        (sym (append_assoc (drop (suc i) xs) (take i xs) (v ∷ [])))

  rotate-set_last : i ≡ 9 → set xs i v ++ [] ≡ drop 1 (drop i xs ++ take i xs) ++ (v ∷ [])
  rotate-set_last e =
      rw
        (
          append-nil,
          drop_one-drop xs (take i xs) i (omega arith),
          drop_all xs (suc i) (omega arith),
        )
        (sym (take_all (set xs i v) (suc i) (omega (arith, length-set xs i v)))
          ∙ take-set xs i v (omega arith))

-- What `add_value` stores.
record Stored (v : ℕ) (b c : AveragingRingBuffer) : Type 0 where
  valid : IsValid c
  shifted : window c ≡ drop 1 (window b) ++ (v ∷ [])
  filled : c.filled ≡ (b.filled || b.cur_idx == 9)
  limit : c.max_deviation ≡ b.max_deviation

store_inside :
    (v : ℕ) (b : AveragingRingBuffer)
    → b.cur_idx < 9
    → store v b ≡ record b { values = set b.values b.cur_idx v; cur_idx = suc b.cur_idx }
unfolding store
store_inside v b lt = ground arith

store_last :
    (v : ℕ) (b : AveragingRingBuffer)
    → b.cur_idx ≡ 9
    → store v b ≡ record b { values = set b.values b.cur_idx v; cur_idx = 0; filled = true }
unfolding store
store_last v b e = ground arith

module _ (v : ℕ) (b : AveragingRingBuffer) (hv : v < 2 ^ 16) (w : IsValid b) where
  Stored-inside :
      b.cur_idx < 9
      → Stored v b (record b { values = set b.values b.cur_idx v; cur_idx = suc b.cur_idx })
  Stored-inside lt = record {
    valid = record {
      index = omega arith;
      size = length-set b.values b.cur_idx v ∙ w.size;
      words = AllU16-set b.values b.cur_idx v w.words hv;
    };
    shifted = rotate-set_inside b.values b.cur_idx v w.size lt;
    filled = ground arith;
    limit = refl;
  }

  Stored-last :
      b.cur_idx ≡ 9
      → Stored v b (record b { values = set b.values b.cur_idx v; cur_idx = 0; filled = true })
  Stored-last e = record {
    valid = record {
      index = omega arith;
      size = length-set b.values b.cur_idx v ∙ w.size;
      words = AllU16-set b.values b.cur_idx v w.words hv;
    };
    shifted = rotate-set_last b.values b.cur_idx v w.size e;
    filled = ground arith;
    limit = refl;
  }

  store-Stored : Stored v b (store v b)
  store-Stored = elim (dec_lt b.cur_idx 9) [
    | yes lt ↦ rw (store_inside v b lt) (Stored-inside lt)
    | no ge ↦
        let e : b.cur_idx ≡ 9 = omega (arith, w.index) in rw (store_last v b e) (Stored-last e)
  ]

-- What is computed from the values of a valid ring.
evaluate_lem :
    (c : AveragingRingBuffer)
    → IsValid c
    → ((evaluate c).average ≡ sum (window c) / 10)
      × ((evaluate c).misfits_count ≡ outliers c.max_deviation (sum (window c) / 10) (window c))
unfolding evaluate
evaluate_lem c w =
    rw
      (
        sum-rotate c.cur_idx c.values,
        outliers-rotate c.max_deviation (sum c.values / 10) c.cur_idx c.values,
        total,
      )
      (
        refl,
        count_misfits-eq-outliers c.max_deviation (sum c.values / 10) 0 c.values
              (omega (arith, small)) w.words (omega (arith, w.size))
            ∙ omega arith,
      )
  where
    small : sum c.values ≤ 655350
    small = omega (arith, sum-le c.values w.words, w.size)

    total : accumulate 0 c.values ≡ sum c.values
    total = accumulate-eq-sum 0 c.values (omega (arith, small)) ∙ omega arith

-- What `add_value` promises: the ring is the window moved on by the new value, and the average and
-- the misfits are those of the window.
pub record Added (v : ℕ) (b c : AveragingRingBuffer) : Type 0 where
  pub valid : IsValid c
  pub shifted : window c ≡ drop 1 (window b) ++ (v ∷ [])
  pub average : c.average ≡ sum (window c) / 10
  pub misfits : c.misfits_count ≡ outliers b.max_deviation (sum (window c) / 10) (window c)
  pub filled : c.filled ≡ (b.filled || b.cur_idx == 9)
  pub limit : c.max_deviation ≡ b.max_deviation

-- Adding a uint16_t to a valid ring keeps it valid, drops the oldest value from the window and
-- appends the new one; the average is the sum of the window over ten, without any wrap of the
-- 32-bit sum, the misfit count is the number of values in the window that lie further from the
-- average than the limit, and the ring counts as filled from the first return to index 0 on.
pub add_value-Added :
    (v : ℕ) (b : AveragingRingBuffer) → v < 2 ^ 16 → IsValid b → Added v b (add_value v b)
unfolding add_value evaluate
add_value-Added v b hv w = record {
  valid = record { index = s.valid.index; size = s.valid.size; words = s.valid.words };
  shifted = s.shifted;
  average = (evaluate_lem (store v b) s.valid).0;
  misfits =
      (evaluate_lem (store v b) s.valid).1
      ∙ ap (λ k. outliers k (sum (window (store v b)) / 10) (window (store v b))) s.limit;
  filled = s.filled;
  limit = s.limit;
}
  where
    s : Stored v b (store v b)
    s = store-Stored v b hv w

pub window-sum_le : (b : AveragingRingBuffer) → IsValid b → sum (window b) ≤ 655350
window-sum_le b w = omega (arith, sum-rotate b.cur_idx b.values, sum-le b.values w.words, w.size)

-- The values of a list, added in order.
unfoldable pub add_values : List ℕ → AveragingRingBuffer → AveragingRingBuffer
add_values [] b = b
add_values (v ∷ vs) b = add_values vs (add_value v b)

pub length-rotate : (n : ℕ) (xs : List ℕ) → length (drop n xs ++ take n xs) ≡ length xs
length-rotate zero xs = omega (arith, length-append xs [])
length-rotate (suc n) [] = refl
length-rotate (suc n) (x ∷ xs) = omega (
  arith,
  length-rotate n xs,
  length-append (drop n xs) (take n xs),
  length-append (drop n xs) (x ∷ take n xs),
)

drop-drop_one : (n : ℕ) (xs : List ℕ) → drop n (drop 1 xs) ≡ drop (suc n) xs
drop-drop_one zero [] = refl
drop-drop_one (suc n) [] = refl
drop-drop_one n (x ∷ xs) = refl

drop_one-append : (xs ys : List ℕ) (n : ℕ) → length xs ≡ suc n → drop 1 xs ++ ys ≡ drop 1 (xs ++ ys)
drop_one-append [] ys n h = absurd (omega arith)
drop_one-append (x ∷ xs) ys n h = refl

drop-window_add :
    (v : ℕ) (vs : List ℕ) (b : AveragingRingBuffer)
    → v < 2 ^ 16
    → IsValid b
    → drop (length vs) (window (add_value v b) ++ vs) ≡ drop (suc (length vs)) (window b ++ v ∷ vs)
drop-window_add v vs b h w =
    rw ((add_value-Added v b h w).shifted, append_assoc (drop 1 (window b)) (v ∷ []) vs)
      (ap (drop (length vs))
          (drop_one-append (window b) (v ∷ vs) 9 (length-rotate b.cur_idx b.values ∙ w.size))
        ∙ drop-drop_one (length vs) (window b ++ v ∷ vs))

-- Adding a list of uint16_t to a valid ring leaves the last ten of the old window followed by the
-- list, and the limit as it was.
pub window-add_values :
    (vs : List ℕ) (b : AveragingRingBuffer)
    → AllU16 vs
    → IsValid b
    → IsValid (add_values vs b)
      × (window (add_values vs b) ≡ drop (length vs) (window b ++ vs))
      × ((add_values vs b).max_deviation ≡ b.max_deviation)
unfolding add_values
window-add_values [] b h w = (w, sym (append-nil (window b)), refl)
window-add_values (v ∷ vs) b h w =
    let a = add_value-Added v b h.0 w in
    let ih = window-add_values vs (add_value v b) h.1 a.valid in
    (ih.0, ih.1 ∙ drop-window_add v vs b h.0 w, ih.2 ∙ a.limit)
