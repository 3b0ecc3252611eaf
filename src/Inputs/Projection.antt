-- ===== src/Inputs/Projection.antt =====
-- What `_project` keeps: agentic_bus/core/step_inputs.py.
use agentic_bus.Common.{
  [], ◌∷◌, false, Option, none, some, Option-cases, Bool-cases, Text, ◌==◌, eq_sound, Dict, lookup,
  Json, Fields, get_field, ◌≡◌, inl, inr, refl, subst,
}
use agentic_bus.Inputs.Resolution.{select}

-- field by field: what is kept under `dest` is what the object holds under the source of `dest`
abbrev pub source_value : Option Text → Fields → Option Json
source_value none fs = none
source_value (some src) fs = get_field src fs

abbrev pub Absent : Text → Dict Text → Type 0
Absent k [] = Unit {0}
Absent k ((j, src) ∷ d) = ((j == k) ≡ false) × Absent k d

-- No destination is named twice, as the keys of a Python dictionary.
abbrev pub HasUniqueKeys : Dict Text → Type 0
HasUniqueKeys [] = Unit {0}
HasUniqueKeys ((k, src) ∷ d) = Absent k d × HasUniqueKeys d

get_field-select-Absent :
    (fields : Dict Text) (fs : Fields) (k : Text)
    → Absent k fields
    → get_field k (select fields fs) ≡ none
unfolding select
get_field-select-Absent [] fs k h = refl
get_field-select-Absent ((dest, src) ∷ fields) fs k (n, h) =
    elim (Option-cases (get_field src fs)) [
      | inl e ↦ rw e (get_field-select-Absent fields fs k h)
      | inr (v, e) ↦ rw e (rw n (get_field-select-Absent fields fs k h))
    ]

-- The projection of an object holds, under a key, what the object holds under the source that the
-- fields give for the key, and nothing where they give none or the object lacks the source. The
-- fields are a dictionary's: no destination stands twice.
pub get_field-select :
    (fields : Dict Text) (fs : Fields) (k : Text)
    → HasUniqueKeys fields
    → get_field k (select fields fs) ≡ source_value (lookup k fields) fs
unfolding select lookup
get_field-select [] fs k h = refl
get_field-select ((dest, src) ∷ fields) fs k (absent, h) = elim (Bool-cases (dest == k)) [
  | inl t ↦ rw t (elim (Option-cases (get_field src fs)) [
    | inl e ↦ rw e (
        get_field-select-Absent fields fs k
          (subst (λ j. Absent j fields) (eq_sound dest k t) absent))
    | inr (v, e) ↦ rw e (rw t refl)
  ])
  | inr f ↦ rw f (elim (Option-cases (get_field src fs)) [
    | inl e ↦ rw e (get_field-select fields fs k h)
    | inr (v, e) ↦ rw e (rw f (get_field-select fields fs k h))
  ])
]
