-- ===== src/Tests/Pending.antt =====
-- relayer/src/api.js: two submissions of one note.
use solnado_cash.Base.{[], ◌∷◌}
use solnado_cash.Base.Json.{str}
use solnado_cash.Base.Text.{codes}
use solnado_cash.Relayer.Pending.{Guard}

-- "5" runs and "05" arrives.
abbrev busy : Guard
busy = record { pending = codes "5" ∷ []; running = str (codes "5") ∷ [] }
