-- ===== src/Helper/OptionLaws.antt =====
-- Renamed arguments, and durations in units.
use jina.Prelude.{ℕ, ◌+◌, ◌*◌, ◌<◌, ◌≡◌, List, [], ◌∷◌, String}
use jina.Helper.Options.{time_parts}

-- The seconds of parts
abbrev total : List (ℕ × String × ℕ) → ℕ
total [] = 0
total ((n, unit, mul) ∷ ps) = n * mul + total ps

-- What stands after a part is less than one of its unit.
abbrev IsMixed : List (ℕ × String × ℕ) → Type 0
IsMixed [] = Unit
IsMixed ((n, unit, mul) ∷ ps) = (total ps < mul) × IsMixed ps

abbrev pub Splits : ℕ → List (String × ℕ) → Type 0
Splits secs us = (total (time_parts secs us) ≡ secs) × IsMixed (time_parts secs us)

abbrev seconds : List (String × ℕ)
seconds = ("second", 1) ∷ []

abbrev minutes : List (String × ℕ)
minutes = ("minute", 60) ∷ seconds

abbrev hours : List (String × ℕ)
hours = ("hour", 3600) ∷ minutes
