-- ===== src/Fan/Runout.antt =====
-- apps/fan_automation/app.py: the run-out after the light goes off.
use mobius_smart_home.Prelude.{ℕ, ◌+◌, ◌≤◌, ◌<◌, ◌≡◌, none, some, List, [], ◌∷◌, All, arith, true}
use mobius_smart_home.Fan.{Settings, Memo, hold, level_decision, to_seconds}
use mobius_smart_home.Fan.Readings.{Readings, light_is_on}
use mobius_smart_home.Fan.Decide.{dry_decision, dry_all, decide}

abbrev pub run_out_time : Settings → ℕ
run_out_time s = to_seconds s.run_after_light_off s.run_after_light_off_unit

module _ (s : Settings) where
  wait_on :
      (now until : ℕ) (m : Memo)
      → m.offdelay_until ≡ some until
      → now < until
      → let (m', d) = dry_decision s now m in (d ≡ hold) × (m'.offdelay_until ≡ some until)
  unfolding dry_decision
  wait_on now until m t h = ground arith

  wait_each :
      (times : List ℕ) (until : ℕ) (m : Memo)
      → m.offdelay_until ≡ some until
      → All (λ now. now < until) times
      → let (m', ds) = dry_all s times m in
        All (λ d. d ≡ hold) ds × (m'.offdelay_until ≡ some until)
  unfolding dry_all
  wait_each [] until m t h = (tt, t)
  wait_each (now ∷ rest) until m t h =
      let (d, t') = wait_on now until m t h.0 in
      let (ds, t'') = wait_each rest until (dry_decision s now m).0 t' h.1 in ((d, ds), t'')

  wait_over :
      (now until : ℕ) (m : Memo)
      → m.offdelay_until ≡ some until
      → until ≤ now
      → let (m', d) = dry_decision s now m in
        (d ≡ level_decision s.fan_when_light_off) × (m'.offdelay_until ≡ none)
  unfolding dry_decision
  wait_over now until m t h = ground arith

  wait_start :
      (start : ℕ) (m : Memo)
      → m.offdelay_until ≡ none
      → let (m', d) = dry_decision s start m in
        (d ≡ hold) × (m'.offdelay_until ≡ some (start + run_out_time s))
  unfolding dry_decision
  wait_start start m t = ground arith

  light_clears :
      (r : Readings) (now : ℕ) (m : Memo)
      → light_is_on r ≡ true
      → (decide s r now m).0.offdelay_until ≡ none
  unfolding decide
  light_clears r now m on = rw on

  -- When a poll with the light on is followed, from `start` on, by polls with the light off and dry air,
  -- every one of them before `start` + the run-out time leaves the fan alone, and the first one after
  -- it, whenever it comes, asks for the light-off level and clears the timer.
  run_out_exact :
      (r : Readings) (lit start : ℕ) (times : List ℕ) (now : ℕ) (m : Memo)
      → light_is_on r ≡ true
      → All (λ t. t < start + run_out_time s) times
      → start + run_out_time s ≤ now
      → let (m', ds) = dry_all s (start ∷ times) (decide s r lit m).0 in
        let (m'', d) = dry_decision s now m' in
        All (λ x. x ≡ hold) ds
        × (d ≡ level_decision s.fan_when_light_off)
        × (m''.offdelay_until ≡ none)
  unfolding dry_all
  run_out_exact r lit start times now m on before after =
      let m0 = (decide s r lit m).0 in
      let (d, t) = wait_start start m0 (light_clears r lit m on) in
      let (ds, t') =
        wait_each times (start + run_out_time s) (dry_decision s start m0).0 t before in
      let (x, t'') = wait_over now _ _ t' after in ((d, ds), x, t'')
