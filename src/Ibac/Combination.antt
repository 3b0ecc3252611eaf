-- ===== src/Ibac/Combination.antt =====
-- `IBACEngine._combine`: the strictest of the layers' outcomes.
pub mod Strictest
use agentic_bus.Common.{
  ℕ, List, [], ◌∷◌, ◌++◌, Bool, true, false, ◌&&◌, ◌||◌, not, Option, none, some, if◌then◌else◌,
  ltb, nat_eq, leb, all, elem, Text, codes, Dict, Json, merge, values, ◌==◌,
}
use agentic_bus.Ibac.Types.{
  IbacDecision, allow, deny, allow_with_scope, require_human_approval, IbacResult, Reason,
}

-- The place in _PRECEDENCE: the most restrictive first.
abbrev pub precedence : IbacDecision → ℕ
precedence deny = 0
precedence require_human_approval = 1
precedence allow_with_scope = 2
precedence allow = 3

-- min(names, key=…) behind `best`: the first of the least.
unfoldable pub strictest_from : Text × IbacResult → Dict IbacResult → Text × IbacResult
strictest_from best [] = best
strictest_from best (l ∷ ls) =
    strictest_from (if ltb (precedence l.1.decision) (precedence best.1.decision) then l else best)
      ls

-- len({r.decision for r in …}) == 1
abbrev pub all_agree : IbacResult → Dict IbacResult → Bool
all_agree r ls = all (λ l. nat_eq (precedence l.1.decision) (precedence r.decision)) ls

unfoldable pub text_before : Text → Text → Bool
text_before s [] = false
text_before [] (d ∷ t) = true
text_before (c ∷ s) (d ∷ t) = ltb c d || nat_eq c d && text_before s t

unfoldable pub insert_text : Text → List Text → List Text
insert_text s [] = s ∷ []
insert_text s (t ∷ ts) =
    let rest = insert_text s ts in
    if s == t then t ∷ ts else if text_before s t then s ∷ t ∷ ts else t ∷ rest

-- sorted(set(…))
unfoldable pub sorted_set : List Text → List Text
unfolding insert_text text_before
sorted_set [] = []
sorted_set (s ∷ ss) = insert_text s (sorted_set ss)

merged_constraints : Dict Json → Dict IbacResult → Dict Json
merged_constraints acc [] = acc
merged_constraints acc (l ∷ ls) = merged_constraints (merge acc l.1.constraints) ls

merged_requirements : Dict Json → Dict IbacResult → Dict Json
merged_requirements acc [] = acc
merged_requirements acc (l ∷ ls) = merged_requirements (merge acc l.1.negotiation_requirements) ls

all_redactions : Dict IbacResult → List Text
all_redactions [] = []
all_redactions (l ∷ ls) = l.1.redactions ++ all_redactions ls

all_reasons : Dict IbacResult → List Reason
all_reasons [] = []
all_reasons (l ∷ ls) = l.1.reason ++ all_reasons ls

combine_from : Text × IbacResult → Dict IbacResult → Text × IbacResult → IbacResult
unfolding sorted_set merged_constraints merged_requirements all_redactions all_reasons
combine_from first rest strictest = record {
  decision = strictest.1.decision;
  evaluation_point = strictest.1.evaluation_point;
  decided_by = if all_agree first.1 rest then codes "both" else strictest.0;
  relies_on_declared_input = strictest.1.relies_on_declared_input;
  constraints = merged_constraints [] (first ∷ rest);
  redactions = sorted_set (all_redactions (first ∷ rest));
  negotiation_requirements = merged_requirements [] (first ∷ rest);
  reason = all_reasons (first ∷ rest);
}

-- The layers are given by name, in order; none is the `ValueError` of `min` over no layer.
unfoldable pub combine : Dict IbacResult → Option IbacResult
unfolding combine_from strictest_from
combine [] = none
combine (l ∷ ls) = some (combine_from l ls (strictest_from l ls))
