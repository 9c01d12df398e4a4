-- ===== src/Lighting/Override.antt =====
-- apps/advanced_motion_lighting/keep_switches/enforcement.py: a user's hand on a keep switch.
use mobius_smart_home.Prelude.{
  is_in, ◌≡◌, refl, ◌∙◌, ap, String, Bool, true, false, ◌&&◌, List, [], ◌∷◌, ◌++◌, Dict, get, put,
  get-put, str_eq, eq_iff, arith, Bool-cases, inl, inr, if◌then◌else◌,
}
use mobius_smart_home.Lifecycle.{Mark, app, manual}
use mobius_smart_home.Lighting.{
  KeepSettings, Sent, House, KeepState, KeepInput, cycle, switch_event, enforceable, force,
  enforce_one, enforce_each, enforces, difference, enforce_keep_switches, handle_switch, keep_step,
  keep_run,
}

-- The commands that one device was sent, in their order.
unfoldable pub sent_to : String → List Sent → List Bool
sent_to device [] = []
sent_to device ((d, state) ∷ rest) =
    let later = sent_to device rest in if str_eq d device then state ∷ later else later

sent_to-append :
    (device d : String) (state : Bool) (sent : List Sent)
    → str_eq d device ≡ false
    → sent_to device (sent ++ (d, state) ∷ []) ≡ sent_to device sent
unfolding sent_to
sent_to-append device d state [] other = rw other
sent_to-append device d state ((e, s) ∷ rest) other = rw (sent_to-append device d state rest other)

-- The app does not enforce the device, which was sent these commands.
pub record HandsOff (device : String) (commands : List Bool) (st : KeepState) : Type 0 where
  pub free : enforceable (get st.keep device) ≡ false
  pub same : sent_to device st.sent ≡ commands

HandsOff-if :
    {device : String} {commands : List Bool} (b : Bool) {st st' : KeepState}
    → HandsOff device commands st
    → HandsOff device commands st'
    → HandsOff device commands (if b then st else st')
HandsOff-if true h h' = h
HandsOff-if false h h' = h'

differ :
    (d device : String) (keep : Dict Mark)
    → enforceable (get keep d) ≡ true
    → enforceable (get keep device) ≡ false
    → str_eq d device ≡ false
differ d device keep ours theirs = elim (Bool-cases (str_eq d device)) [
  | inl same ↦
      absurd (cc (ap (λ (k : String). enforceable (get keep k)) ((eq_iff d device).0 same)))
  | inr other ↦ other
]

module _ (device : String) (commands : List Bool) where
  force-HandsOff :
      (env : House) (state : Bool) (d : String) (st : KeepState)
      → str_eq d device ≡ false
      → HandsOff device commands st
      → HandsOff device commands (force env state d st)
  unfolding force
  force-HandsOff env state d st other h =
      let same = sent_to-append device d state st.sent other ∙ h.same in
      HandsOff-if (env.send_raises st.sent d state) (record { free = h.free; same = same })
        (record {
          free =
              rw (get-put st.keep d device (record { is_on = state; source = app }), other) h.free;
          same = same;
        })

  enforce_one-HandsOff :
      (env : House) (state : Bool) (d : String) (st : KeepState)
      → HandsOff device commands st
      → HandsOff device commands (enforce_one env state d st)
  unfolding enforce_one
  enforce_one-HandsOff env state d st h = elim (Bool-cases (enforceable (get st.keep d))) [
    | inl ours ↦
        HandsOff-if _ (force-HandsOff env state d st (differ d device st.keep ours h.free) h) h
    | inr theirs ↦ rw theirs (HandsOff-none _ h)
  ]
    where
      HandsOff-none :
          (b : Bool)
          → HandsOff device commands st
          → HandsOff device commands (if b && false then force env state d st else st)
      HandsOff-none true k = k
      HandsOff-none false k = k

  enforce_each-HandsOff :
      (env : House) (state : Bool) (ds : List String) (st : KeepState)
      → HandsOff device commands st
      → HandsOff device commands (enforce_each env state ds st)
  unfolding enforce_each
  enforce_each-HandsOff env state [] st h = h
  enforce_each-HandsOff env state (d ∷ rest) st h =
      enforce_each-HandsOff env state rest (enforce_one env state d st)
        (enforce_one-HandsOff env state d st h)

  enforce_keep_switches-HandsOff :
      (s : KeepSettings) (env : House) (st : KeepState)
      → HandsOff device commands st
      → HandsOff device commands (enforce_keep_switches s env st)
  unfolding enforce_keep_switches
  enforce_keep_switches-HandsOff s env st h =
      let off = enforce_each-HandsOff env false s.keep_off_switches st h in
      let after =
        HandsOff-if (enforces s.keep_off_enabled s.keep_off_modes env.current_mode) off h in
      HandsOff-if (enforces s.keep_on_enabled s.keep_on_modes env.current_mode)
        (enforce_each-HandsOff env true (difference s.keep_on_switches s.keep_off_switches) _ after)
        after

  handle_switch-HandsOff :
      (s : KeepSettings) (updating : Bool) (d v : String) (st : KeepState)
      → HandsOff device commands st
      → HandsOff device commands (handle_switch s updating d v st)
  unfolding handle_switch enforceable
  handle_switch-HandsOff s updating d v st h =
      let by_hand : Mark = record { is_on = str_eq v "on"; source = manual } in
      HandsOff-if updating h (
        HandsOff-if _ {st = record st { keep = put st.keep d by_hand }}
          (record {
            free = ground (arith, h.free, get-put st.keep d device by_hand);
            same = h.same;
          })
          h)

  keep_run-HandsOff :
      (s : KeepSettings) (inputs : List KeepInput) (st : KeepState)
      → HandsOff device commands st
      → HandsOff device commands (keep_run s inputs st)
  unfolding keep_run keep_step
  keep_run-HandsOff s [] st h = h
  keep_run-HandsOff s (cycle env ∷ rest) st h =
      keep_run-HandsOff s rest (enforce_keep_switches s env st)
        (enforce_keep_switches-HandsOff s env st h)
  keep_run-HandsOff s (switch_event updating d v ∷ rest) st h =
      keep_run-HandsOff s rest (handle_switch s updating d v st)
        (handle_switch-HandsOff s updating d v st h)

marks_manual :
    (s : KeepSettings) (device : String) (st : KeepState)
    → is_in device s.keep_off_switches ≡ true
    → let st' = handle_switch s false device "on" st in
      (enforceable (get st'.keep device) ≡ false) × (st'.sent ≡ st.sent)
unfolding handle_switch enforceable
marks_manual s device st listed = ground (
  arith,
  (eq_iff device device).1 refl,
  get-put st.keep device device (record { is_on = true; source = manual }),
)

-- When a user turns on a keep-off switch, with no command to it in flight, the enforcement sends it
-- nothing any more, through any cycles and switch events, in any modes, until the marks are reset.
pub keep_override_respected :
    (s : KeepSettings) (device : String) (inputs : List KeepInput) (st : KeepState)
    → is_in device s.keep_off_switches ≡ true
    → let after = keep_run s (switch_event false device "on" ∷ inputs) st in
      sent_to device after.sent ≡ sent_to device st.sent
unfolding keep_run keep_step
keep_override_respected s device inputs st listed =
    let st' = handle_switch s false device "on" st in
    let (free, same) = marks_manual s device st listed in
    (keep_run-HandsOff device (sent_to device st.sent) s inputs st'
      (record { free = free; same = ap (sent_to device) same })).same
