-- ===== src/Fan/Release.antt =====
-- apps/fan_automation/app.py: a mode change gives the fans back to the app.
use mobius_smart_home.Prelude.{
  ℕ, ◌≡◌, refl, String, Bool, true, false, some, List, [], ◌∷◌, Dict, get, get-put, arith,
  if◌then◌else◌,
}
use mobius_smart_home.Fan.{Settings, Decision, hold, turn_off, turn_on}
use mobius_smart_home.Fan.Decide.{decide}
use mobius_smart_home.Fan.Apply.{
  Mark, app, FanApp, Fans, Moment, is_manual, send_to, asks_on, apply_one, apply_each, apply,
  master, drop_manual, on_mode_change,
}

drop_manual-app :
    (marks : Dict Mark) (fan : String) → is_manual (get (drop_manual marks) fan) ≡ false
unfolding drop_manual get is_manual
drop_manual-app [] fan = refl
drop_manual-app ((j, mark) ∷ rest) fan = ground (arith, drop_manual-app rest fan)

abbrev Free : String → FanApp → Type 0
Free fan st = is_manual (get st.switch_state fan) ≡ false

Free-if :
    (fan : String) (b : Bool) (st st' : FanApp)
    → Free fan st
    → Free fan st'
    → Free fan (if b then st else st')
Free-if fan true st st' h h' = h
Free-if fan false st st' h h' = h'

module _ (env : Fans) (fan : String) where
  send_to-Free :
      (d : Decision) (now : ℕ) (j : String) (st : FanApp)
      → Free fan st
      → Free fan (send_to env d now j st)
  unfolding send_to is_manual
  send_to-Free d now j st h =
      ground (arith, get-put st.switch_state j fan (record { is_on = asks_on d; source = app }))

  apply_one-Free :
      (d : Decision) (now : ℕ) (j : String) (st : FanApp)
      → Free fan st
      → Free fan (apply_one env d now j st)
  unfolding apply_one
  apply_one-Free d now j st h =
      Free-if fan (is_manual (get st.switch_state j)) _ _ h
        (Free-if fan _ _ _ h (send_to-Free d now j st h))

  apply_each-Free :
      (d : Decision) (now : ℕ) (fans : List String) (st : FanApp)
      → Free fan st
      → Free fan (apply_each env d now fans st)
  unfolding apply_each
  apply_each-Free d now [] st h = h
  apply_each-Free d now (j ∷ rest) st h =
      apply_each-Free d now rest (apply_one env d now j st) (apply_one-Free d now j st h)

  apply-Free : (d : Decision) (now : ℕ) (st : FanApp) → Free fan st → Free fan (apply env d now st)
  unfolding apply
  apply-Free hold now st h = h
  apply-Free turn_off now st h = apply_each-Free turn_off now env.fans st h
  apply-Free (turn_on level) now st h = apply_each-Free (turn_on level) now env.fans st h

  master-Free :
      (s : Settings) (at : Moment) (st : FanApp) → Free fan st → Free fan (master s env at st)
  unfolding master
  master-Free s at st h =
      let (memo, d) = decide s at.readings at.wall st.memo in
      Free-if fan st.is_paused st _ h (apply-Free d at.monotonic (record st { memo = memo }) h)

  -- After a mode change no fan is in the user's hands any more, whatever marks there were.
  mode_change_releases :
      (s : Settings) (at : Moment) (mode : String) (st : FanApp)
      → is_manual (get (on_mode_change s env at mode st).switch_state fan) ≡ false
  unfolding on_mode_change
  mode_change_releases s at mode st =
      master-Free s at
        (record st { last_mode = some mode; switch_state = drop_manual st.switch_state })
        (drop_manual-app st.switch_state fan)
