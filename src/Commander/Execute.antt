-- ===== src/Commander/Execute.antt =====
-- services/device_commander.py: `_execute_command_sync`, with the outcome of its log row, and
-- `send_command_sync`.
use mobius_smart_home.Prelude.{
  ℕ, zero, suc, String, Bool, true, false, ◌&&◌, Option, none, some, leb, str_eq, if◌then◌else◌, [],
  ◌∷◌, ◌++◌,
}
use mobius_smart_home.Commander.{
  CommandStatus, idle, updating, verified, failed, timeout, send_exception, send_returned_false,
  overall_timeout, verification_failed, verify_backoff, CommandResult, new_result, Expected,
  resolve_expected_state, Config, Commander, set_device_status, verify_backoff_active,
  record_verify_result, update_cache,
}

pub data Send : Type 0 where
  accepted refused raised : Send

-- What a poll of the device gives: its attribute, no device, or an exception.
pub data Poll : Type 0 where
  reads : Option String → Poll
  no_device poll_raised : Poll

-- The hub during one execution: the answer to each attempt, and, for each poll of an attempt, the time
-- since the start and what it gives. `clock` is the monotonic clock at the start, and `ended` at the
-- end.
pub record Hub : Type 0 where
  pub send : ℕ → Send
  pub elapsed : ℕ → ℕ → ℕ
  pub poll : ℕ → ℕ → Poll
  pub clock : ℕ
  pub ended : ℕ

unfoldable pub is_value : Option String → String → Bool
is_value none v = false
is_value (some a) v = str_eq a v

unfoldable pub observe : Poll → Expected → CommandResult → CommandResult × Bool
observe (reads a) e r =
    (record r { actual_state = a; expected_state = some e.value }, is_value a e.value)
observe no_device e r = (r, false)
observe poll_raised e r = (r, false)

pub data PollEnd : Type 0 where
  confirmed unconfirmed timed_out : PollEnd

-- The loop over `verify_retries`: the polls left, and the number of the next one.
unfoldable pub poll_loop :
    Config → Hub → Expected → ℕ → ℕ → ℕ → CommandResult → CommandResult × PollEnd
poll_loop cfg hub e outer zero mid r = (r, unconfirmed)
poll_loop cfg hub e outer (suc left) mid r =
    let r' = record r { verify_retries = some mid } in
    let (seen, ok) = observe (hub.poll outer mid) e r' in
    let rest = poll_loop cfg hub e outer left (suc mid) seen in
    if leb cfg.command_timeout (hub.elapsed outer mid)
    then (record r' { status = timeout; error = some overall_timeout }, timed_out)
    else if ok
    then (seen, confirmed)
    else rest

-- `break`, on to the next attempt, or `return`
pub data Next : Type 0 where
  break go_on return : Next

abbrev pub State : Type 0
State = Commander × CommandResult

unfoldable pub after_polls :
    PollEnd → Config → Hub → String → Expected → Commander → CommandResult → State × Next
after_polls confirmed cfg hub device e c r = (
  (
    record_verify_result cfg device true hub.ended
        (update_cache device e (set_device_status device verified c)),
    record r { is_verified = true; status = verified },
  ),
  break,
)
after_polls unconfirmed cfg hub device e c r = ((c, r), go_on)
after_polls timed_out cfg hub device e c r = ((set_device_status device timeout c, r), return)

-- The attempt after the hub took the command
unfoldable pub verify_state :
    Option Expected → Config → Hub → String → ℕ → Commander → CommandResult → State × Next
verify_state none cfg hub device outer c r = ((set_device_status device idle c, r), break)
verify_state (some e) cfg hub device outer c r =
    let (r', end) = poll_loop cfg hub e outer cfg.verify_retries 0 r in
    after_polls end cfg hub device e c r'

unfoldable pub after_send :
    Send → Option Expected → Config → Hub → String → ℕ → Commander → CommandResult → State × Next
after_send accepted e cfg hub device outer c r =
    verify_state e cfg hub device outer c (record r { success = true })
after_send refused e cfg hub device outer c r =
    ((c, record r { error = some send_returned_false }), go_on)
after_send raised e cfg hub device outer c r =
    ((c, record r { error = some send_exception }), go_on)

unfoldable pub attempt : Option Expected → Config → Hub → String → ℕ → State → State × Next
attempt e cfg hub device outer (c, r) =
    after_send (hub.send outer) e cfg hub device outer (record c { sent = c.sent ++ device ∷ [] })
      (record r { outer_retries = some outer })

unfoldable pub continue : Next → State → State × Bool → State × Bool
continue go_on s rest = rest
continue break s rest = (s, true)
continue return s rest = (s, false)

-- The loop over `operation_retries`; `false` where the method has returned from inside it.
unfoldable pub attempts : Option Expected → Config → Hub → String → ℕ → ℕ → State → State × Bool
unfolding continue
attempts e cfg hub device zero outer s = (s, true)
attempts e cfg hub device (suc left) outer s =
    let (s', next) = attempt e cfg hub device outer s in
    let rest = attempts e cfg hub device left (suc outer) s' in continue next s' rest

-- The row of `device_commands`
pub data Outcome : Type 0 where
  pending confirmed_ok failed_timeout failed_verify failed_network : Outcome

outcome_of : CommandStatus → CommandResult → Outcome
outcome_of verified r = confirmed_ok
outcome_of timeout r = failed_timeout
outcome_of failed r = elim r.expected_state [ none ↦ failed_network | some e ↦ failed_verify ]
outcome_of idle r = if r.success then confirmed_ok else failed_network
outcome_of updating r = if r.success then confirmed_ok else failed_network

-- `_log_command_completed`
unfoldable pub log_command_completed : CommandResult → Outcome
unfolding outcome_of
log_command_completed r = outcome_of r.status r

-- After the loop
unfoldable pub give_up : Option Expected → Config → Hub → String → State → State
give_up none cfg hub device s = s
give_up (some e) cfg hub device (c, r) = if r.is_verified then (c, r) else (
  record_verify_result cfg device false hub.ended (set_device_status device failed c),
  record r { status = failed; error = some verification_failed },
)

unfoldable pub completed :
    (State × Bool) → Option Expected → Config → Hub → String → Commander × CommandResult × Outcome
completed (s, true) e cfg hub device =
    let (c, r) = give_up e cfg hub device s in (c, r, log_command_completed r)
completed ((c, r), false) e cfg hub device = (c, r, pending)

-- The part over Hubitat; the row is the one that `_log_command_issued` inserted.
unfoldable pub execute_hubitat :
    Config → Hub → String → Bool → Option Expected → Commander → Commander × CommandResult × Outcome
unfolding completed
execute_hubitat cfg hub device verify e c =
    let c' = set_device_status device updating c in
    let backed_off : Commander × CommandResult × Outcome = (
      set_device_status device failed c',
      record new_result { status = failed; error = some verify_backoff },
      pending,
    ) in
    let run = attempts e cfg hub device cfg.operation_retries 0 (c', new_result) in
    if verify && verify_backoff_active cfg c' device hub.clock
    then backed_off
    else completed run e cfg hub device

-- What `_try_matter_primary` finds out: `sends` is false where the device is not commissioned or
-- offline, the server cannot be reached, the command has no translation or something raises;
-- `confirms` is what `_verify_matter_state` gives.
pub record Matter : Type 0 where
  pub enabled : Bool
  pub sends : Bool
  pub confirms : Option (Bool × String)

expected_text : Option Expected → Option String
expected_text none = none
expected_text (some e) = some e.value

matter_done :
    Bool → Option String → Option Expected → String → Commander → Commander × CommandResult
matter_done ok actual e device c =
    let status = if ok then verified else updating in
    (
      set_device_status device status c,
      record new_result {
        success = true;
        is_verified = ok;
        status = status;
        actual_state = actual;
        expected_state = expected_text e;
        matter_sent = true;
      },
    )

matter_checked :
    Option (Bool × String)
    → Option Expected
    → String
    → Commander
    → Option (Commander × CommandResult)
unfolding matter_done
matter_checked none e device c = none
matter_checked (some (ok, actual)) e device c =
    if ok then some (matter_done true (some actual) e device c) else none

-- `_try_matter_primary`, behind `_matter_primary_enabled`. Its write of the new state to the device
-- cache is left out.
unfoldable pub try_matter_primary :
    Matter → String → Bool → Option Expected → Commander → Option (Commander × CommandResult)
unfolding matter_checked matter_done expected_text
try_matter_primary m device verify e c =
    let checked = matter_checked m.confirms e device c in
    let unchecked = some (matter_done false none e device c) in
    if m.enabled && m.sends then (if verify then checked else unchecked) else none

or_hubitat :
    Option (Commander × CommandResult)
    → Commander × CommandResult × Option Outcome
    → Commander × CommandResult × Option Outcome
or_hubitat none other = other
or_hubitat (some (c, r)) other = (c, r, none)

-- `_execute_command_sync`: the tables, the result, and what stands in the command's log row, if it has
-- one.
unfoldable pub execute_command_sync :
    Config
    → Matter
    → Hub
    → String
    → String
    → Option String
    → Bool
    → Commander
    → Commander × CommandResult × Option Outcome
unfolding or_hubitat
execute_command_sync cfg m hub device command arg verify c =
    let e = if verify then resolve_expected_state command arg else none in
    let (c', r, row) = execute_hubitat cfg hub device verify e c in
    or_hubitat (try_matter_primary m device verify e c) (c', r, some row)
