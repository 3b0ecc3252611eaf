-- ===== src/Scopes/Examples.antt =====
-- The theorems about scopes at concrete names, and tests of the definitions.
use agentic_bus.Common.{
  List, [], ◌∷◌, true, false, ◌≡◌, ◌↔◌, inl, inr, refl, some, Text, codes, In, ◌==◌, lower, strip,
  ends_with, starts_with, split_on, is_alnum,
}
use agentic_bus.Scopes.{
  normalise, covers, covered_by_any, drop_last, parent_of, is_well_formed, narrow, intersect,
  env_flag, ScopePolicy, resolve,
}
use agentic_bus.Scopes.Coverage.{Covers, covers_iff}
use agentic_bus.Scopes.Bounds.{CoveredBy}
use agentic_bus.Scopes.Catalogue.{Declares, Recognised, resolve-recognised_iff}

abbrev payments : Text
payments = codes "payments:*"

abbrev refunds : Text
refunds = codes "payments:refund:*"

abbrev approve : Text
approve = codes "Payments:Refund:approve "

abbrev write : Text
write = codes "payments:write"

abbrev reports : Text
reports = codes "reports:read"

covers-payments : covers payments refunds ≡ true
unfolding covers normalise drop_last lower strip ends_with starts_with ◌==◌
covers-payments = refl

covers-refunds : covers refunds approve ≡ true
unfolding covers normalise drop_last lower strip ends_with starts_with ◌==◌
covers-refunds = refl

no_widening : covers write (codes "payments:write:all") ≡ false
unfolding covers normalise drop_last lower strip ends_with starts_with ◌==◌
no_widening = refl

parent-approve : parent_of approve ≡ codes "payments:refund"
unfolding parent_of normalise lower strip
parent-approve = refl

well_formed_names :
    (is_well_formed payments ≡ true)
    × (is_well_formed (codes "a:*:b") ≡ false)
    × (is_well_formed (codes "a::b") ≡ false)
unfolding is_well_formed normalise lower strip split_on is_alnum ◌==◌
well_formed_names = (refl, refl, refl)

flag_on : env_flag (some (codes " Yes")) false ≡ true
unfolding env_flag lower strip ◌==◌
flag_on = refl

covers_iff_example :
    (covers payments refunds ≡ true) ↔ Covers (normalise payments) (normalise refunds)
covers_iff_example = covers_iff payments refunds

abbrev asked : List Text
asked = write ∷ reports ∷ []

abbrev ceiling : List Text
ceiling = payments ∷ []

narrowed : narrow asked ceiling ≡ write ∷ []
unfolding narrow covered_by_any covers normalise drop_last lower strip ends_with starts_with ◌==◌
narrowed = refl

unbound : intersect asked [] ≡ []
unfolding intersect
unbound = refl

inner_within : (g : Text) → In g (refunds ∷ []) → CoveredBy ceiling g
inner_within g (inl e) =
    rw e (record { holder = payments; held = inl refl; covering = covers-payments })
inner_within g (inr h) = absurd h

approved_inside : In approve (intersect (approve ∷ []) (refunds ∷ []))
unfolding intersect covered_by_any covers normalise drop_last lower strip ends_with starts_with ◌==◌
approved_inside = inl refl

abbrev enforcing : ScopePolicy
enforcing = record { enforced = true }

abbrev declared : List Text
declared = codes "Payments:write" ∷ write ∷ reports ∷ codes "a::b" ∷ []

resolved : resolve enforcing declared ceiling ≡ record {
  recognised = write ∷ [];
  unrecognised = reports ∷ [];
  catalogued = [];
  malformed = codes "a::b" ∷ [];
}
unfolding resolve is_well_formed covered_by_any covers normalise drop_last lower strip ends_with
    starts_with split_on is_alnum ◌==◌
resolved = refl

resolve-recognised_iff_example :
    In write (resolve enforcing declared ceiling).recognised
    ↔ (Declares declared write × Recognised enforcing ceiling write)
resolve-recognised_iff_example = resolve-recognised_iff enforcing declared ceiling write
