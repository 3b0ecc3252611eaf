-- ===== src/Ibac/Semantic/Safety.antt =====
-- When `IBACEngine._evaluate_semantic` allows.
use agentic_bus.Common.{
  List, [], ◌∷◌, Bool, true, false, ◌≡◌, ◌↔◌, ◌⊎◌, inl, inr, refl, subst, arith, Option, none, some,
  Text, codes, Json, str, obj, null, bool, int, float, arr, Fields, get_field,
}
use agentic_bus.Ibac.Types.{IbacDecision, permits_execution, IbacRequest, is_allowed, IbacRule}
use agentic_bus.Ibac.Semantic.{
  Model, applicable_rules, parse_decision, constraints_of, asks_approval, with_approval, decided,
  read_decision, read_response, judge_rules, evaluate_semantic,
}

-- The model's answer is an object whose decision permits, and that asks for no approval.
pub record Permits (answer : Option Json) : Type 0 where
  pub response : Fields
  pub raw : Text
  pub decision : IbacDecision
  pub answered : answer ≡ some (obj response)
  pub stated : get_field (codes "decision") response ≡ some (str raw)
  pub known : parse_decision raw ≡ some decision
  pub permitting : permits_execution decision ≡ true
  pub no_approval :
      asks_approval (
        get_field
          (codes "require_human_approval")
          (constraints_of (get_field (codes "constraints") response)))
      ≡ false

-- The rules could be read, and none applies or a configured model permits.
pub record Cleared (rules : Option (List IbacRule)) (llm : Option Model) (request : IbacRequest)
    : Type 0 where
  pub loaded : List IbacRule
  pub readable : rules ≡ some loaded
  pub clear :
      (applicable_rules loaded request ≡ [])
      ⊎ ((model : Model) × (llm ≡ some model)
          × Permits (model (applicable_rules loaded request) request))

with_approval-permits :
    (asked : Bool) (d : IbacDecision)
    → (permits_execution (with_approval asked d) ≡ true)
      ↔ ((asked ≡ false) × (permits_execution d ≡ true))
with_approval-permits asked d = (λ h. ground arith, λ h. ground arith)

decided_iff :
    (request : IbacRequest) (response : Fields) (d : IbacDecision)
    → (is_allowed (decided request response d) ≡ true) ↔ (
        (asks_approval (
            get_field
              (codes "require_human_approval")
              (constraints_of (get_field (codes "constraints") response)))
          ≡ false)
        × (permits_execution d ≡ true))
unfolding decided
decided_iff request response d = with_approval-permits _ d

read_response_sound :
    (request : IbacRequest) (answer : Option Json)
    → is_allowed (read_response request answer) ≡ true
    → Permits answer
unfolding read_response
read_response_sound request none h = cc
read_response_sound request (some (obj response)) h = from_field _ refl h
  where
    from_decision :
        (raw : Text) (o : Option IbacDecision)
        → get_field (codes "decision") response ≡ some (str raw)
        → parse_decision raw ≡ o
        → is_allowed (read_decision request response (some (str raw))) ≡ true
        → Permits (some (obj response))
    from_decision raw none stated e k = absurd (unfold read_decision in ground arith)
    from_decision raw (some d) stated e k =
        let (plain, permitting) =
          (decided_iff request response d).0 (unfold read_decision in rw (e, read_decision) at k) in
        record {
          response = response;
          raw = raw;
          decision = d;
          answered = refl;
          stated = stated;
          known = e;
          permitting = permitting;
          no_approval = plain;
        }

    from_field :
        (o : Option Json)
        → get_field (codes "decision") response ≡ o
        → is_allowed (read_decision request response o) ≡ true
        → Permits (some (obj response))
    from_field none e k = absurd (unfold read_decision in ground arith)
    from_field (some (str raw)) e k = from_decision raw (parse_decision raw) e refl k
    from_field (some null) e k = absurd (unfold read_decision in ground arith)
    from_field (some (bool b)) e k = absurd (unfold read_decision in ground arith)
    from_field (some (int n)) e k = absurd (unfold read_decision in ground arith)
    from_field (some (float r w)) e k = absurd (unfold read_decision in ground arith)
    from_field (some (arr vs)) e k = absurd (unfold read_decision in ground arith)
    from_field (some (obj fs)) e k = absurd (unfold read_decision in ground arith)
read_response_sound request (some null) h = cc
read_response_sound request (some (bool b)) h = cc
read_response_sound request (some (int n)) h = cc
read_response_sound request (some (float r w)) h = cc
read_response_sound request (some (str s)) h = cc
read_response_sound request (some (arr vs)) h = cc

read_response_complete :
    (request : IbacRequest) (answer : Option Json)
    → Permits answer
    → is_allowed (read_response request answer) ≡ true
unfolding read_response
read_response_complete request answer p =
    rw (p.answered, read_response)
      (rw (p.stated, read_decision)
        (rw (p.known, read_decision)
          ((decided_iff request p.response p.decision).1 (p.no_approval, p.permitting))))

judge_rules_iff :
    (request : IbacRequest) (llm : Option Model) (rules : List IbacRule)
    → (is_allowed (judge_rules request llm rules) ≡ true)
      ↔ ((rules ≡ []) ⊎ ((model : Model) × (llm ≡ some model) × Permits (model rules request)))
unfolding judge_rules
judge_rules_iff request llm [] = (λ _. inl refl, λ _. refl)
judge_rules_iff request none (r ∷ rs) =
    (λ h. cc, λ why. elim why [ inl e ↦ cc | inr (model, e, p) ↦ cc ])
judge_rules_iff request (some model) (r ∷ rs) = (
  λ h. inr (model, refl, read_response_sound request (model (r ∷ rs) request) h),
  λ why. elim why [
    | inl e ↦ cc
    | inr (m, e, p) ↦
        let same : m ≡ model = cc in
        read_response_complete request (model (r ∷ rs) request)
          (subst (λ k. Permits (k (r ∷ rs) request)) same p)
  ],
)

-- The semantic layer allows exactly when the rules could be read and either none applies at the
-- point of evaluation, or a configured model answered with an object whose decision is one of the
-- two that permit, and whose constraints ask for no human approval.
pub evaluate_semantic-is_allowed_iff :
    (rules : Option (List IbacRule)) (llm : Option Model) (request : IbacRequest)
    → (is_allowed (evaluate_semantic rules llm request) ≡ true) ↔ Cleared rules llm request
unfolding evaluate_semantic
evaluate_semantic-is_allowed_iff none llm request = (λ h. cc, λ c. cc (c.readable))
evaluate_semantic-is_allowed_iff (some rules) llm request =
    let (to, from) = judge_rules_iff request llm (applicable_rules rules request) in
    (
      λ h. record { loaded = rules; readable = refl; clear = to h },
      λ c.
          let same : c.loaded ≡ rules = cc (c.readable) in
          from (
            subst
              (λ rs.
                (applicable_rules rs request ≡ [])
                ⊎ ((model : Model) × (llm ≡ some model)
                    × Permits (model (applicable_rules rs request) request)))
              same c.clear),
    )
