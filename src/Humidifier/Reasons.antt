-- ===== src/Humidifier/Reasons.antt =====
-- apps/humidifier/app.py: the command that a run's readings call for, told from the raw readings, and
-- what the code computes from them.
use mobius_smart_home.Prelude.{
  ℕ, ◌+◌, ◌*◌, ◌/◌, ltb, ◌≡◌, refl, sym, ap, ◌∙◌, String, Bool, true, false, ◌&&◌, ◌||◌, not,
  Option, none, some, List, [], ◌∷◌, any, is_in, leb, str_eq, if◌then◌else◌, arith,
}
use mobius_smart_home.Humidifier.{
  HumidifierSettings, LastMotion, Room, HumidifierState, highest, reads_active, later, newest,
  within, is_open, warn_no_reading, humidity_now, motion_is_active, any_contact_open, reads_as,
  in_restricted_mode,
}

at_least : ℕ → Option ℕ → Bool
at_least hundredths none = false
at_least hundredths (some v) = ltb 0 v && leb hundredths v

-- A reading above 0 reaches the threshold; without any reading above 0, 40 percent counts.
humid_enough : HumidifierSettings → Room → Bool
unfolding at_least
humid_enough s r =
    any (at_least (s.humidity_threshold * 100)) r.humidity
    || (not (any (at_least 0) r.humidity) && leb s.humidity_threshold 40)

has_time : LastMotion → Bool
has_time m = elim m.received_at [ none ↦ false | some t ↦ true ]

reported_within : ℕ → ℕ → LastMotion → Bool
reported_within seconds now m = elim m.received_at [ none ↦ false | some t ↦ ltb now (t + seconds) ]

-- Some sensor reads active or had an event within the time; without any event, somebody counts as there.
somebody_there : HumidifierSettings → Room → Bool
unfolding has_time reported_within
somebody_there s r =
    any (λ m. reads_as m.value "active") r.motion
    || (any (reported_within (60 * s.no_motion_time) r.now) r.motion || not (any has_time r.motion))

-- Why a run turns off, outside of the restricted modes
pub stops : HumidifierSettings → Room → Bool
unfolding humid_enough somebody_there
stops s r = humid_enough s r || not (somebody_there s r) || any (λ c. reads_as c "open") r.contacts

pub restricted : Option String → List String → Bool
restricted none modes = false
restricted (some mode) modes = any (λ m. str_eq m mode && not (str_eq mode "")) modes

-- The command that the readings of a run call for
unfoldable pub order_of : HumidifierSettings → Room → Option String
unfolding stops restricted
order_of s r =
    if r.is_paused
    then none
    else if restricted r.mode s.restricted_modes
    then (if s.off_in_restricted_mode then some "off" else none)
    else if stops s r
    then some "off"
    else some "on"

highest-at_least :
    (hundredths : ℕ) (vs : List (Option ℕ))
    → any (at_least hundredths) vs ≡ (ltb 0 (highest vs) && leb hundredths (highest vs))
unfolding at_least highest
highest-at_least hundredths [] = ground arith
highest-at_least hundredths (none ∷ vs) = highest-at_least hundredths vs
highest-at_least hundredths (some v ∷ vs) = ground (arith, highest-at_least hundredths vs)

humidity_now-humid_enough :
    (s : HumidifierSettings) (r : Room) (st : HumidifierState)
    → leb s.humidity_threshold (humidity_now r st).1 ≡ humid_enough s r
unfolding humidity_now humid_enough
humidity_now-humid_enough s r st =
    rw (highest-at_least (s.humidity_threshold * 100) r.humidity, highest-at_least 0 r.humidity)
      (usable (highest r.humidity))
  where
    usable :
        (v : ℕ)
        → leb s.humidity_threshold
            (if◌then◌else◌ {A = HumidifierState × ℕ}
              (ltb 0 v)
              (st, v / 100)
              (warn_no_reading r.monotonic st, 40)).1
          ≡ ((ltb 0 v && leb (s.humidity_threshold * 100) v)
              || (not (ltb 0 v && leb 0 v) && leb s.humidity_threshold 40))
    usable v = ground arith

recent : Option ℕ → ℕ → ℕ → Bool
recent none timeout now = false
recent (some t) timeout now = ltb now (t + timeout)

known : Option ℕ → Bool
known none = false
known (some t) = true

newest-recent :
    (timeout now : ℕ) (ms : List LastMotion)
    → any (reported_within timeout now) ms ≡ recent (newest ms) timeout now
unfolding newest recent reported_within
newest-recent timeout now [] = refl
newest-recent timeout now (m ∷ ms) =
    by_time m.received_at (newest ms) (newest-recent timeout now ms)
  where
    by_time :
        (o n : Option ℕ)
        → any (reported_within timeout now) ms ≡ recent n timeout now
        → ((elim o [ none ↦ false | some t ↦ ltb now (t + timeout) ])
            || any (reported_within timeout now) ms)
          ≡ recent (later o n) timeout now
    by_time none n ih = ih
    by_time (some t) none ih = rw ih (ground arith)
    by_time (some t) (some u) ih = rw ih (ground arith)

newest-known : (ms : List LastMotion) → any has_time ms ≡ known (newest ms)
unfolding newest has_time known
newest-known [] = refl
newest-known (m ∷ ms) = by_time m.received_at (newest ms) (newest-known ms)
  where
    by_time :
        (o n : Option ℕ)
        → any has_time ms ≡ known n
        → ((elim o [ none ↦ false | some t ↦ true ]) || any has_time ms) ≡ known (later o n)
    by_time none n ih = ih
    by_time (some t) none ih = refl
    by_time (some t) (some u) ih = refl

newest-within :
    (timeout now : ℕ) (ms : List LastMotion)
    → within (newest ms) timeout now
      ≡ (any (reported_within timeout now) ms || not (any has_time ms))
unfolding within recent known
newest-within timeout now ms =
    rw (newest-recent timeout now ms, newest-known ms) (by_newest (newest ms))
  where
    by_newest : (n : Option ℕ) → within n timeout now ≡ (recent n timeout now || not (known n))
    by_newest none = refl
    by_newest (some t) = ground arith

active-each : (ms : List LastMotion) → any reads_active ms ≡ any (λ m. reads_as m.value "active") ms
unfolding reads_active reads_as
active-each [] = refl
active-each (m ∷ ms) = rw (active-each ms) (by_value m.value)
  where
    by_value :
        (o : Option String)
        → ((elim o [ none ↦ false | some v ↦ str_eq v "active" ])
            || any (λ m. reads_as m.value "active") ms)
          ≡ (reads_as o "active" || any (λ m. reads_as m.value "active") ms)
    by_value none = refl
    by_value (some v) = refl

motion_is_active-somebody_there :
    (s : HumidifierSettings) (r : Room) → motion_is_active s r ≡ somebody_there s r
unfolding motion_is_active somebody_there newest within
motion_is_active-somebody_there s r =
    by_sensors r.motion (code r.motion) (λ none_there. ap code none_there)
    ∙ rw (active-each r.motion, same_time, newest-within (60 * s.no_motion_time) r.now r.motion)
        refl
  where
    same_time : s.no_motion_time * 60 ≡ 60 * s.no_motion_time
    same_time = omega arith

    code : List LastMotion → Bool
    code ms = any reads_active ms || within (newest ms) (s.no_motion_time * 60) r.now

    by_sensors :
        (ms : List LastMotion) (b : Bool)
        → (ms ≡ [] → b ≡ true)
        → (elim ms [ [] ↦ true | m ∷ rest ↦ b ]) ≡ b
    by_sensors [] b empty = sym (empty refl)
    by_sensors (m ∷ rest) b empty = refl

any_contact_open-open : (r : Room) → any_contact_open r ≡ any (λ c. reads_as c "open") r.contacts
unfolding any_contact_open is_open reads_as
any_contact_open-open r = each r.contacts
  where
    each : (cs : List (Option String)) → any is_open cs ≡ any (λ c. reads_as c "open") cs
    each [] = refl
    each (none ∷ cs) = each cs
    each (some v ∷ cs) = ap (λ b. str_eq v "open" || b) (each cs)

pub in_restricted_mode-restricted :
    (s : HumidifierSettings) (r : Room)
    → in_restricted_mode s r ≡ restricted r.mode s.restricted_modes
unfolding in_restricted_mode restricted is_in
in_restricted_mode-restricted s r = by_mode r.mode
  where
    by_name :
        (mode : String) (b : Bool) (ms : List String)
        → (if b then false else any (λ m. str_eq m mode) ms) ≡ any (λ m. str_eq m mode && not b) ms
    by_name mode b [] = ground arith
    by_name mode b (m ∷ ms) = ground (arith, by_name mode b ms)

    by_mode :
        (o : Option String)
        → (elim o [
          | none ↦ false
          | some mode ↦ if str_eq mode "" then false else is_in mode s.restricted_modes
        ])
          ≡ restricted o s.restricted_modes
    by_mode none = refl
    by_mode (some mode) = by_name mode (str_eq mode "") s.restricted_modes

pub stops-read :
    (s : HumidifierSettings) (r : Room) (st : HumidifierState)
    → (leb s.humidity_threshold (humidity_now r st).1
        || not (motion_is_active s r)
        || any_contact_open r)
      ≡ stops s r
unfolding stops
stops-read s r st =
    rw
      (
        humidity_now-humid_enough s r st,
        motion_is_active-somebody_there s r,
        any_contact_open-open r,
      )
      refl
