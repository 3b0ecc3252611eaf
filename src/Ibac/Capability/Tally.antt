-- ===== src/Ibac/Capability/Tally.antt =====
-- A concrete `IsoTime` for tests: a mark and as many strokes as the time has microseconds.
use agentic_bus.Common.{ℕ, zero, suc, ◌+◌, [], ◌∷◌, ◌≡◌, ◌≢◌, refl, arith, Option, none, some, Text}
use agentic_bus.Ibac.Capability.{IsoTime}

abbrev pub strokes : ℕ → Text
strokes zero = []
strokes (suc n) = 73 ∷ strokes n

abbrev pub count_strokes : Text → ℕ
count_strokes [] = 0
count_strokes (c ∷ s) = count_strokes s + 1

abbrev pub marked : Text → Option ℕ
marked [] = none
marked (c ∷ s) = some (count_strokes s)

pub strokes_back : (n : ℕ) → count_strokes (strokes n) ≡ n
strokes_back zero = refl
strokes_back (suc n) = let rest = strokes_back n in omega (arith, rest)

pub marked_not_empty : (t : ℕ) → 84 ∷ strokes t ≢ []
marked_not_empty t e = cc

abbrev pub tally : IsoTime
tally = record {
  isoformat = λ t. 84 ∷ strokes t;
  fromisoformat = marked;
  round_trip = λ t. rw (strokes_back t);
  not_empty = marked_not_empty;
}
