-- ===== src/Fan/Manual.antt =====
-- apps/fan_automation/app.py: a user's hand on a fan is respected until the mode changes.
use mobius_smart_home.Prelude.{
  ◌≡◌, String, true, false, some, List, [], ◌∷◌, get, str_eq, if◌then◌else◌,
}
use mobius_smart_home.Fan.Tokens.{Token, FanEvent, event_token, tokens_match}
use mobius_smart_home.Fan.Apply.{
  Command, FanApp, Input, evaluate, fan_event, mode_change, is_manual,
}

-- The commands that one fan was sent, in their order.
unfoldable pub commands_to : String → List (String × Command) → List Command
commands_to fan [] = []
commands_to fan ((j, c) ∷ rest) =
    let later = commands_to fan rest in if str_eq j fan then c ∷ later else later

-- The fan is in the user's hands, and was sent these commands.
pub record Held (fan : String) (commands : List Command) (st : FanApp) : Type 0 where
  pub marked : is_manual (get st.switch_state fan) ≡ true
  pub same : commands_to fan st.sent ≡ commands

-- An input that is no mode change.
abbrev pub KeepsMode : Input → Type 0
KeepsMode (evaluate at) = Unit
KeepsMode (fan_event e) = Unit
KeepsMode (mode_change at mode) = ⊥

-- The event shows a state of its fan other than the one that the app asked for, by more than the
-- tolerance for levels.
abbrev pub ByHand : FanApp → FanEvent → Type 0
ByHand st e =
    (asked : Token) × (get st.expected e.device_id ≡ some asked)
    × (tokens_match asked (event_token e) ≡ false)
