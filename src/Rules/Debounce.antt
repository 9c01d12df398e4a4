-- ===== src/Rules/Debounce.antt =====
-- apps/rules/interpreter.py: how far apart accepted events of one type are.
use mobius_smart_home.Prelude.{
  ℕ, ◌+◌, ◌≤◌, ◌<◌, ◌≡◌, String, true, false, Option, none, some, List, [], ◌∷◌, Dict, get, put,
  get-put_self, str_eq, ltb, arith, Bool-cases, inl, inr, if◌then◌else◌,
}
use mobius_smart_home.Rules.{RuleSpec}
use mobius_smart_home.Rules.Host.{Host, World}
use mobius_smart_home.Rules.Pause.{SameEffects}
use mobius_smart_home.Rules.Interpreter.{Event, debounce, execute_event, unless_paused, or_zero}

accept : Option (Dict ℕ) → ℕ → Dict ℕ → (Dict ℕ → List ℕ) → List ℕ
accept none now table later = later table
accept (some table') now table later = now ∷ later table'

-- The arrival times of one type's events at which the debounce lets the event pass.
unfoldable pub accepted : RuleSpec → String → List ℕ → Dict ℕ → List ℕ
unfolding accept
accepted spec event_type [] table = []
accepted spec event_type (now ∷ rest) table =
    accept (debounce spec event_type now table) now table (accepted spec event_type rest)

-- Each time is at least `window` after the one before it, the first after `last`.
abbrev pub Apart : ℕ → ℕ → List ℕ → Type 0
Apart window last [] = Unit
Apart window last (now ∷ rest) = (last + window ≤ now) × Apart window now rest

module _ (spec : RuleSpec) (event_type : String) (window : ℕ)
    (configured : get spec.debounce_per_event event_type ≡ some window) where
  debounce-window :
      (now : ℕ) (table : Dict ℕ)
      → 0 < window
      → debounce spec event_type now table ≡ (
          if ltb now (or_zero (get table event_type) + window)
          then none
          else some (put table event_type now))
  unfolding debounce
  debounce-window now table pos = ground arith

  -- Of any arrivals of one type, those accepted are at least its debounce window apart, and the first
  -- is at least that far from the last one accepted before.
  accepted-Apart :
      (times : List ℕ) (table : Dict ℕ)
      → 0 < window
      → Apart window (or_zero (get table event_type)) (accepted spec event_type times table)
  unfolding accepted
  accepted-Apart [] table pos = tt
  accepted-Apart (now ∷ rest) table pos =
      elim (Bool-cases (ltb now (or_zero (get table event_type) + window))) [
        | inl early ↦
            rw (debounce-window now table pos, early, accept) (accepted-Apart rest table pos)
        | inr late ↦
            rw (debounce-window now table pos, late, accept)
              (
                ground arith,
                rw (get-put_self table event_type now) at
                    (accepted-Apart rest (put table event_type now) pos),
              )
      ]

  -- The time of an event counts for the debounce also when the app is paused, so that the event does
  -- nothing: after the resume, an event of the same type that comes within the window of the ignored
  -- one sends nothing and sets no mode either, on any host.
  paused_event_debounces :
      (h h' : Host) (e e' : Event) (now now' : ℕ) (table : Dict ℕ) (w w' : World)
      → 0 < window
      → e.event_type ≡ some event_type
      → e'.event_type ≡ some event_type
      → str_eq event_type "" ≡ false
      → or_zero (get table event_type) + window ≤ now
      → now' < now + window
      → h.is_paused w.reads ≡ true
      → let (after, table') = execute_event h spec e now table w in
        SameEffects w after × SameEffects w' (execute_event h' spec e' now' table' w').0
  unfolding execute_event unless_paused
  paused_event_debounces h h' e e' now now' table w w' pos typed typed' named late early paused =
      let passes = debounce-window now table pos in
      let drops = debounce-window now' (put table event_type now) pos in
      ground (arith, get-put_self table event_type now)
