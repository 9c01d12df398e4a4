-- ===== src/Power/Worst.antt =====
-- apps/power_management/app.py: the search for the worst sensor.
use native.Mathlib.Nat.{mul-le-mul_right, mul_right_comm, le_of_mul-le-mul_right}
use mobius_smart_home.Prelude.{
  ℕ, ◌*◌, ◌<◌, ◌≤◌, ◌≡◌, inl, inr, refl, sym, ap, ◌∙◌, Bool, true, false, ◌&&◌, ◌||◌, Option, none,
  some, [], ◌∷◌, any, Dict, if◌then◌else◌, arith, Bool-cases, if_both,
}
use mobius_smart_home.Power.{
  PowerSettings, PowerState, PowerBuffer, Average, above, at_least, sensor_avg, pick, worst_high,
  holds_for, trip_if, trip_high_at, maybe_trip_high, cooldown_clear, trip_power, high,
}

-- If the smaller of two quotients reaches a threshold, so does the larger one.
reach_up :
    (threshold a_total a_count b_total b_count : ℕ)
    → 0 < b_count
    → b_total * a_count ≤ a_total * b_count
    → threshold * b_count ≤ b_total
    → threshold * a_count ≤ a_total
reach_up threshold a_total a_count b_total b_count some_b less reaches =
    let wide : threshold * b_count * a_count ≤ b_total * a_count =
      mul-le-mul_right a_count reaches in
    let turned : threshold * b_count * a_count ≡ threshold * a_count * b_count =
      mul_right_comm threshold b_count a_count in
    let both : threshold * a_count * b_count ≤ a_total * b_count =
      omega (arith, wide, less, turned) in
    le_of_mul-le-mul_right both some_b

larger :
    (threshold : ℕ) (a b : Average)
    → 0 < a.count
    → 0 < b.count
    → at_least (if above a b then a else b) threshold
      ≡ (at_least a threshold || at_least b threshold)
unfolding at_least above
larger threshold a b some_a some_b =
    let up = reach_up threshold a.total a.count b.total b.count some_b in
    let down = reach_up threshold b.total b.count a.total a.count some_a in ground (arith, up, down)

-- An average has readings.
abbrev Real : Option Average → Type 0
Real none = Unit
Real (some a) = 0 < a.count

sensor_avg-Real : (buf : PowerBuffer) → Real (sensor_avg buf)
unfolding sensor_avg
sensor_avg-Real [] = tt
sensor_avg-Real (x ∷ rest) = ground arith

pick-Real : (o w : Option Average) → Real o → Real w → Real (pick above o w)
unfolding pick
pick-Real none w real_o real_w = real_w
pick-Real (some a) none real_o real_w = real_o
pick-Real (some a) (some b) real_o real_w =
    if_both Real (above a b) {x = some a} {y = some b} real_o real_w

pick-larger :
    (threshold : ℕ) (o w : Option Average)
    → Real o
    → Real w
    → holds_for (λ a. at_least a threshold) (pick above o w)
      ≡ (holds_for (λ a. at_least a threshold) o || holds_for (λ a. at_least a threshold) w)
unfolding pick holds_for
pick-larger threshold none w real_o real_w = refl
pick-larger threshold (some a) none real_o real_w = ground arith
pick-larger threshold (some a) (some b) real_o real_w = elim (Bool-cases (above a b)) [
  | inl larger_a ↦ rw larger_a (
      ap (λ c. at_least (if c then a else b) threshold) (sym larger_a)
      ∙ larger threshold a b real_o real_w)
  | inr smaller_a ↦ rw smaller_a (
      ap (λ c. at_least (if c then a else b) threshold) (sym smaller_a)
      ∙ larger threshold a b real_o real_w)
]

-- The average of some sensor reaches the threshold.
pub any_hot : ℕ → Dict PowerBuffer → Bool
any_hot threshold buffers =
    any (λ b. holds_for (λ a. at_least a threshold) (sensor_avg b.1)) buffers

worst_high-any_hot :
    (threshold : ℕ) (w : Option Average) (buffers : Dict PowerBuffer)
    → Real w
    → holds_for (λ a. at_least a threshold) (worst_high w buffers)
      ≡ (holds_for (λ a. at_least a threshold) w || any_hot threshold buffers)
unfolding worst_high any_hot
worst_high-any_hot threshold w [] real_w = ground arith
worst_high-any_hot threshold w ((key, buf) ∷ rest) real_w =
    worst_high-any_hot threshold (pick above (sensor_avg buf) w) rest
      (pick-Real (sensor_avg buf) w (sensor_avg-Real buf) real_w)
    ∙ ap (λ c. c || any_hot threshold rest)
        (pick-larger threshold (sensor_avg buf) w (sensor_avg-Real buf) real_w)
    ∙ swap (holds_for (λ a. at_least a threshold) (sensor_avg buf))
        (holds_for (λ a. at_least a threshold) w) (any_hot threshold rest)
  where
    swap : (a b c : Bool) → ((a || b) || c) ≡ (b || (a || c))
    swap true true c = refl
    swap true false c = refl
    swap false true c = refl
    swap false false c = refl

answer :
    (b : Bool) (x y : PowerState)
    → (if◌then◌else◌ {A = PowerState × Bool} b (x, true) (y, false)).1 ≡ b
answer true x y = refl
answer false x y = refl

-- The search for the worst sensor misses none: the high check trips exactly when the average of some
-- sensor over its buffer reaches the threshold and the cool-down is over.
pub maybe_trip_high-any_hot :
    (s : PowerSettings) (now threshold : ℕ) (st : PowerState)
    → s.high_threshold ≡ some threshold
    → (maybe_trip_high s now st).1 ≡ (any_hot threshold st.power_buffer && cooldown_clear s now st)
unfolding maybe_trip_high trip_high_at trip_if holds_for
maybe_trip_high-any_hot s now threshold st is_threshold =
    let offends = holds_for (λ a. at_least a threshold) (worst_high none st.power_buffer) in
    ap (λ t. (trip_high_at s now t st).1) is_threshold
    ∙ answer (offends && cooldown_clear s now st) (trip_power s now high st) st
    ∙ ap (λ c. c && cooldown_clear s now st) (worst_high-any_hot threshold none st.power_buffer tt)
