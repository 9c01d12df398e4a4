-- ===== src/Router/Labels.antt =====
-- services/webhook_router.py: the label of a device, from which an event is resolved to its row.
use Prim.Native.Char.{Char, code}
use Prim.Native.String.{String}
use mobius_smart_home.Prelude.{
  ℕ, ◌+◌, ◌-◌, ◌*◌, Bool, true, false, ◌&&◌, Option, none, some, List, [], ◌∷◌, leb, ◌==◌, str_eq,
  strip, if◌then◌else◌,
}

is_digit : Char → Bool
is_digit c = leb 48 (code c) && leb (code c) 57

all_digits : String → Bool
unfolding is_digit
all_digits String.[] = true
all_digits (String.◌∷◌ c s) = is_digit c && all_digits s

-- What is left of a text after a prefix
after : String → String → Option String
after String.[] s = some s
after (String.◌∷◌ c p) String.[] = none
after (String.◌∷◌ c p) (String.◌∷◌ d s) =
    let rest = after p s in if code c == code d then rest else none

digits_only : Option String → Bool
digits_only none = false
digits_only (some s) = if str_eq s "" then false else all_digits s

-- `_MESH_SUFFIX_RE.sub("", s)`, with the ASCII digits for `\d`
unfoldable pub drop_mesh_suffix : String → String
unfolding digits_only all_digits is_digit after
drop_mesh_suffix String.[] = String.[]
drop_mesh_suffix (String.◌∷◌ c s) =
    let rest = drop_mesh_suffix s in
    if digits_only (after " on Home " (String.◌∷◌ c s)) then String.[] else String.◌∷◌ c rest

base_candidate : String → String → List String
base_candidate key base = if str_eq base "" then [] else if str_eq base key then [] else base ∷ []

-- The labels that `_lookup_canonical_by_label` tries
unfoldable pub candidates : String → List String
unfolding base_candidate
candidates label =
    let key = strip label in
    if str_eq key "" then [] else key ∷ base_candidate key (strip (drop_mesh_suffix key))

digits_value : ℕ → String → Option ℕ
unfolding is_digit
digits_value n String.[] = some n
digits_value n (String.◌∷◌ c s) =
    let rest = digits_value (10 * n + (code c - 48)) s in if is_digit c then rest else none

-- `int(s)` where `s.isdigit()`, in ASCII
unfoldable pub number_of : String → Option ℕ
unfolding digits_value
number_of s = if str_eq s "" then none else digits_value 0 s
