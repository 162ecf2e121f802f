-- ===== src/Examples/Tests.antt =====
-- A request of two bytes, whatever is UTF-8.
use nea.Base.{ℕ, Bool, true, List, [], ◌∷◌}

abbrev request : List ℕ
request = 71 ∷ 69 ∷ []

abbrev any : List ℕ → Bool
any bytes = true
