-- ===== src/Humidifier/Commands.antt =====
-- apps/humidifier/app.py: when the humidifier is switched.
use mobius_smart_home.Prelude.{
  ◌≡◌, inl, inr, refl, ap, ◌∙◌, String, Bool, true, false, ◌&&◌, ◌||◌, not, none, some, List, [],
  ◌∷◌, ◌++◌, any, is_in, str_eq, eq_iff, if◌then◌else◌, arith, Bool-cases, if_both,
}
use mobius_smart_home.Humidifier.{
  HumidifierSettings, Order, Room, HumidifierState, warn_no_reading, humidity_now, apply_one, apply,
  reads_as, in_restricted_mode, master,
}
use mobius_smart_home.Humidifier.Reasons.{order_of, stops-read, in_restricted_mode-restricted}

-- Whether a device got a command
abbrev pub ordered : String → String → List Order → Bool
ordered d target sent = any (λ c. str_eq c.0 d && str_eq c.1 target) sent

ordered-append :
    (d target : String) (xs : List Order) (c : Order)
    → ordered d target (xs ++ c ∷ []) ≡ (ordered d target xs || (str_eq c.0 d && str_eq c.1 target))
ordered-append d target [] c = ground arith
ordered-append d target (x ∷ xs) c = ground (arith, ordered-append d target xs c)

-- A device that reads the same whenever it is asked
abbrev pub Reads : Room → String → String → Type 0
Reads r d v = (sent : List Order) → r.get_switch_state sent d ≡ some v

apply_one-ordered :
    (r : Room) (c target d v id : String) (st : HumidifierState)
    → Reads r d v
    → ordered d c (apply_one r target id st).sent
      ≡ (ordered d c st.sent || (str_eq id d && not (str_eq v target) && str_eq target c))
unfolding apply_one reads_as
apply_one-ordered r c target d v id st reading = elim (Bool-cases (str_eq id d)) [
  | inl same ↦
      rw ((eq_iff id d).0 same, reading st.sent, (eq_iff d d).1 refl)
        (elim (Bool-cases (str_eq v target)) [
          | inl done ↦ rw done (ground arith)
          | inr differs ↦
              rw differs (ordered-append d c st.sent (d, target) ∙ rw ((eq_iff d d).1 refl) refl)
        ])
  | inr other ↦ rw other (
      if_both (λ (x : HumidifierState). ordered d c x.sent ≡ (ordered d c st.sent || false))
        (reads_as (r.get_switch_state st.sent id) target) (ground arith)
        (ordered-append d c st.sent (id, target) ∙ rw other refl))
]

apply-ordered :
    (r : Room) (c target d v : String) (ids : List String) (st : HumidifierState)
    → Reads r d v
    → ordered d c (apply r target ids st).sent
      ≡ (ordered d c st.sent || (is_in d ids && not (str_eq v target) && str_eq target c))
unfolding apply is_in
apply-ordered r c target d v [] st reading = ground arith
apply-ordered r c target d v (id ∷ ids) st reading =
    apply-ordered r c target d v ids (apply_one r target id st) reading
    ∙ ground (arith, apply_one-ordered r c target d v id st reading)

apply-right :
    (r : Room) (c target d v : String) (ids : List String) (st : HumidifierState)
    → Reads r d v
    → ordered d c st.sent ≡ false
    → ordered d c (apply r target ids st).sent
      ≡ (is_in d ids && not (str_eq v c) && reads_as (some target) c)
unfolding reads_as
apply-right r c target d v ids st reading none_before =
    apply-ordered r c target d v ids st reading ∙ elim (Bool-cases (str_eq target c)) [
      | inl same ↦ rw ((eq_iff target c).0 same, none_before, (eq_iff c c).1 refl) refl
      | inr other ↦ ground (arith, other, none_before)
    ]

humidity_now-sent : (r : Room) (st : HumidifierState) → (humidity_now r st).0.sent ≡ st.sent
unfolding humidity_now warn_no_reading
humidity_now-sent r st = ground arith

-- A run sends a command to a device that reads the same whenever it is asked, and that got no such
-- command before, exactly when it is one of the switches, that state is another, and the command is the
-- one that the readings of the run call for: none while paused; in a restricted mode "off", if it is set
-- to turn off there; elsewhere "off" when a humidity reading above 0 reaches the threshold, or there is
-- no such reading and the threshold is at most 40 percent, when no motion sensor reads active or had an
-- event within the time although some sensor had an event, or when a contact reads open; else "on".
pub master-ordered :
    (s : HumidifierSettings) (r : Room) (st : HumidifierState) (d v c : String)
    → Reads r d v
    → ordered d c st.sent ≡ false
    → ordered d c (master s r st).sent
      ≡ (is_in d s.humidifier_switches && not (str_eq v c) && reads_as (order_of s r) c)
unfolding master reads_as order_of
master-ordered s r st d v c reading none_before =
    branches r.is_paused (in_restricted_mode s r) s.off_in_restricted_mode _
    ∙ ap (λ o. is_in d s.humidifier_switches && not (str_eq v c) && reads_as o c)
        (rw (in_restricted_mode-restricted s r, stops-read s r st) refl)
  where
    st' : HumidifierState
    st' = (humidity_now r st).0

    none_yet : ordered d c st'.sent ≡ false
    none_yet = ap (ordered d c) (humidity_now-sent r st) ∙ none_before

    branches :
        (paused away turns_off stop : Bool)
        → ordered d c
            (if paused
              then st
              else if away
              then (if turns_off then apply r "off" s.humidifier_switches st else st)
              else if stop
              then apply r "off" s.humidifier_switches st'
              else apply r "on" s.humidifier_switches st').sent
          ≡ (is_in d s.humidifier_switches
              && not (str_eq v c)
              && reads_as
                  (if paused
                    then none
                    else if away
                    then (if turns_off then some "off" else none)
                    else if stop
                    then some "off"
                    else some "on")
                  c)
    branches true away turns_off stop = ground (arith, none_before)
    branches false true true stop =
        apply-right r c "off" d v s.humidifier_switches st reading none_before
    branches false true false stop = ground (arith, none_before)
    branches false false turns_off true =
        apply-right r c "off" d v s.humidifier_switches st' reading none_yet
    branches false false turns_off false =
        apply-right r c "on" d v s.humidifier_switches st' reading none_yet
