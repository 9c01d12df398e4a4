-- ===== src/Prelude/Strip.antt =====
-- Python's `str.strip()`, and its `str.lower()` as far as a comparison with a word tells.
use Prim.Native.Char.{Char, code}
use Prim.Native.String.{String}
use Prim.Native.Nat.{ℕ, ◌+◌}
use mathlib.Core.Bool.{Bool, true, false, ◌&&◌, ◌||◌}
use mobius_smart_home.Prelude.Tests.{leb, ◌==◌, if◌then◌else◌}

-- The code points that `str.isspace` accepts.
is_space : ℕ → Bool
is_space c =
    (leb 9 c && leb c 13)
    || (leb 28 c && leb c 32)
    || c == 0x85
    || c == 0xa0
    || c == 0x1680
    || (leb 0x2000 c && leb c 0x200a)
    || c == 0x2028
    || c == 0x2029
    || c == 0x202f
    || c == 0x205f
    || c == 0x3000

strip_start : String → String
unfolding is_space
strip_start String.[] = String.[]
strip_start (String.◌∷◌ c s) =
    let rest = strip_start s in if is_space (code c) then rest else String.◌∷◌ c s

drop_space : Char → String → String
unfolding is_space
drop_space c String.[] = if is_space (code c) then String.[] else String.◌∷◌ c String.[]
drop_space c (String.◌∷◌ d s) = String.◌∷◌ c (String.◌∷◌ d s)

strip_end : String → String
unfolding drop_space
strip_end String.[] = String.[]
strip_end (String.◌∷◌ c s) = drop_space c (strip_end s)

unfoldable pub strip : String → String
unfolding strip_start strip_end
strip s = strip_end (strip_start s)

lower_code : ℕ → ℕ
lower_code c = if leb 65 c && leb c 90 then c + 32 else c

-- `s.lower() == word`, for a word of lower-case ASCII letters without a k: only ASCII letters become
-- such letters.
unfoldable pub lowers_to : String → String → Bool
unfolding lower_code
lowers_to String.[] String.[] = true
lowers_to String.[] (String.◌∷◌ d w) = false
lowers_to (String.◌∷◌ c s) String.[] = false
lowers_to (String.◌∷◌ c s) (String.◌∷◌ d w) = lower_code (code c) == code d && lowers_to s w
