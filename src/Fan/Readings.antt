-- ===== src/Fan/Readings.antt =====
-- apps/fan_automation/app.py: the world-state helpers.
use mobius_smart_home.Prelude.{
  ℕ, ◌+◌, String, Bool, true, false, Option, none, some, List, [], ◌∷◌, any, leb, ltb, max, str_eq,
  if◌then◌else◌,
}
use mobius_smart_home.Fan.{Settings, Memo}

-- The `switch` attributes of the selected lights, and what `float()` makes of the `humidity`
-- attributes of the selected sensors, in the unit of the settings: `none` where there is no value or
-- no number.
pub record Readings : Type 0 where
  pub lights : List (Option String)
  pub humidity : List (Option ℕ)

is_on : Option String → Bool
is_on none = false
is_on (some v) = str_eq v "on"

-- `_light_is_on`
unfoldable pub light_is_on : Readings → Bool
unfolding is_on
light_is_on r = any is_on r.lights

larger : Option ℕ → Option ℕ → Option ℕ
larger none b = b
larger (some a) none = some a
larger (some a) (some b) = some (max a b)

-- `_humidity_now`
unfoldable pub humidity_now : List (Option ℕ) → Option ℕ
unfolding larger
humidity_now [] = none
humidity_now (v ∷ rest) = larger v (humidity_now rest)

-- The latch after a reading: on at the threshold, off below threshold - offset.
unfoldable pub latch : Settings → ℕ → Bool → Bool
latch s h latched =
    if leb s.humidity_threshold h
    then true
    else if ltb (h + s.humidity_offset) s.humidity_threshold
    then false
    else latched

humid_from : Option ℕ → Settings → Memo → Memo × Bool
humid_from none s m = (m, false)
humid_from (some h) s m =
    let latched = latch s h m.humid_latched in (record m { humid_latched = latched }, latched)

-- `_is_humid`
unfoldable pub is_humid : Settings → Readings → Memo → Memo × Bool
unfolding humid_from
is_humid s r m = humid_from (humidity_now r.humidity) s m

-- `self.get_devices('humidity_sensor')` as a condition
unfoldable pub has_sensors : Readings → Bool
has_sensors r = any (λ _. true) r.humidity
