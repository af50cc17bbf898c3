-- ===== src/Base/Text.antt =====
-- Texts as lists of code units: literals, and the searches that the program makes in them.
use Prim.Native.Char.{code}
use Prim.Native.String.{String}
use solnado_cash.Base.{ℕ, Bool, true, false, ◌&&◌, ◌||◌, ◌==◌, List, [], ◌∷◌}

-- The code units of an ASCII literal.
abbrev pub codes : String → List ℕ
codes String.[] = []
codes (String.◌∷◌ c s) = code c ∷ codes s

-- text.startsWith(prefix)
unfoldable pub starts_with : List ℕ → List ℕ → Bool
starts_with text [] = true
starts_with [] (p ∷ ps) = false
starts_with (c ∷ cs) (p ∷ ps) = c == p && starts_with cs ps

-- text.includes(part)
unfoldable pub includes : List ℕ → List ℕ → Bool
unfolding starts_with
includes [] part = starts_with [] part
includes (c ∷ cs) part = starts_with (c ∷ cs) part || includes cs part
