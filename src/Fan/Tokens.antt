-- ===== src/Fan/Tokens.antt =====
-- apps/fan_automation/app.py: `_event_token` and `_tokens_match`.
use text.Mathlib.Text.{starts_with}
use mobius_smart_home.Prelude.{
  ℕ, ◌+◌, ◌≤◌, ◌≡◌, ◌↔◌, refl, String, Bool, true, false, ◌&&◌, ◌||◌, Option, none, some, leb, not,
  inl, inr, Bool-cases, Option-cases, arith, str_eq, if◌then◌else◌,
}

-- `off`, `on:?`, `on:<level>`, and `<name>:<value>` with what `int()` reads of the value.
pub data Token : Type 0 where
  off : Token
  on_unknown : Token
  on_level : ℕ → Token
  other : String → String → Option ℕ → Token

-- An event of a fan, its name and value in lower case, with what `int(float())` and `int()` make of the
-- value, `none` if they raise.
pub record FanEvent : Type 0 where
  pub device_id : String
  pub name : String
  pub value : String
  pub as_float : Option ℕ
  pub as_int : Option ℕ

level_token : Option ℕ → Token
level_token none = on_unknown
level_token (some n) = on_level n

-- `_event_token`
unfoldable pub event_token : FanEvent → Token
unfolding level_token
event_token e =
    if str_eq e.name "switch"
    then (if str_eq e.value "off" then off else on_unknown)
    else if str_eq e.name "level" || str_eq e.name "speed"
    then level_token e.as_float
    else other e.name e.value e.as_int

-- `token.startswith('on')`
unfoldable pub starts_on : Token → Bool
starts_on off = false
starts_on on_unknown = true
starts_on (on_level n) = true
starts_on (other name value n) = starts_with name "on"

-- The level behind the colon: `none` for `?` and for what is no number.
level_of : Token → Option ℕ
level_of off = none
level_of on_unknown = none
level_of (on_level n) = some n
level_of (other name value n) = n

abbrev pub manual_tolerance : ℕ
manual_tolerance = 15

-- `abs(a - b) <= _LEVEL_MANUAL_TOLERANCE`
near : Option ℕ → Option ℕ → Bool
near none b = true
near (some a) none = true
near (some a) (some b) = leb a (b + manual_tolerance) && leb b (a + manual_tolerance)

-- `_tokens_match`. Its first test, on equal tokens, is one that the others imply (`tokens_match_self`).
unfoldable pub tokens_match : Token → Token → Bool
unfolding starts_on level_of near
tokens_match expected actual =
    if starts_on expected
    then starts_on actual && near (level_of expected) (level_of actual)
    else not (starts_on actual)

tokens_match_self : (t : Token) → tokens_match t t ≡ true
unfolding tokens_match
tokens_match_self off = refl
tokens_match_self on_unknown = refl
tokens_match_self (on_level n) = ground arith
tokens_match_self (other name value n) = ground arith

abbrev IsReport : Token → Type 0
IsReport (other name value n) = ⊥
IsReport _ = Unit

event_token-IsReport :
    (e : FanEvent)
    → str_eq e.name "switch" || (str_eq e.name "level" || str_eq e.name "speed") ≡ true
    → IsReport (event_token e)
unfolding event_token
event_token-IsReport e reports = elim (Bool-cases (str_eq e.name "switch")) [
  | inl switch ↦ elim (Bool-cases (str_eq e.value "off")) [
    | inl is_off ↦ rw (switch, is_off) tt
    | inr not_off ↦ rw (switch, not_off) tt
  ]
  | inr none_of ↦
      let level : str_eq e.name "level" || str_eq e.name "speed" ≡ true = rw none_of at reports in
      elim (Option-cases e.as_float) [
        | inl missing ↦ rw (none_of, level, missing) tt
        | inr (n, read) ↦ rw (none_of, level, read) tt
      ]
]

-- What a reported token has to be to pass as the echo of a command at this level.
abbrev pub EchoOf : ℕ → Token → Type 0
EchoOf level off = ⊥
EchoOf level on_unknown = Unit
EchoOf level (on_level n) = (n ≤ level + 15) × (level ≤ n + 15)
EchoOf level (other name value n) = ⊥

match_report :
    (t : Token) (level : ℕ)
    → IsReport t
    → ((tokens_match off t ≡ true) ↔ (t ≡ off))
      × ((tokens_match (on_level level) t ≡ true) ↔ EchoOf level t)
unfolding tokens_match
match_report off level r = ((λ _. refl, λ _. refl), (λ h. cc, λ h. absurd h))
match_report on_unknown level r = ((λ h. cc, λ h. cc), (λ _. tt, λ _. refl))
match_report (on_level n) level r = ((λ h. cc, λ h. cc), (λ h. ground arith, λ h. ground arith))
match_report (other name value n) level r = absurd r

-- A switch, level or speed report of a fan counts as the echo of a commanded `off` exactly when it says
-- off, and of a commanded level exactly when it says on and the level that it reports, if it reports a
-- number, is within 15 of the commanded one.
pub tokens_match_iff :
    (e : FanEvent) (level : ℕ)
    → str_eq e.name "switch" || (str_eq e.name "level" || str_eq e.name "speed") ≡ true
    → ((tokens_match off (event_token e) ≡ true) ↔ (event_token e ≡ off))
      × ((tokens_match (on_level level) (event_token e) ≡ true) ↔ EchoOf level (event_token e))
tokens_match_iff e level reports =
    match_report (event_token e) level (event_token-IsReport e reports)
