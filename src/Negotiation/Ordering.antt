-- ===== src/Negotiation/Ordering.antt =====
-- `order_steps` of agentic_bus/coordinator/negotiation/engine.py, with `_parse_json_object`.
use agentic_bus.Common.{
  ℕ, zero, suc, List, [], ◌∷◌, Bool, true, false, ◌&&◌, Option, none, some, if◌then◌else◌, Text,
  codes, length, ltb, nat_eq, int_eq, int_leb, ℤ, pos, Json, null, bool, int, float, str, arr, obj,
  Items, nil, cons, Fields, get_field, truthy,
}
use agentic_bus.Sessions.{PlanStep}
use agentic_bus.Inputs.Parsing.{Answer, answered, failed, ModelReply, parse}

-- sorted(xs), on integers
abbrev pub insert_sorted : ℤ → List ℤ → List ℤ
insert_sorted i [] = i ∷ []
insert_sorted i (j ∷ js) =
    let rest = insert_sorted i js in if int_leb i j then i ∷ j ∷ js else j ∷ rest

abbrev pub sort : List ℤ → List ℤ
sort [] = []
sort (i ∷ is) = insert_sorted i (sort is)

abbrev pub ints_eq : List ℤ → List ℤ → Bool
ints_eq [] [] = true
ints_eq [] (j ∷ js) = false
ints_eq (i ∷ is) [] = false
ints_eq (i ∷ is) (j ∷ js) = int_eq i j && ints_eq is js

-- list(range(start, start + n))
abbrev pub range_from : (start n : ℕ) → List ℤ
range_from start zero = []
range_from start (suc n) = pos start ∷ range_from (suc start) n

-- The items of a list as integers, where each equals one: `True` is 1 and `False` is 0.
abbrev pub consed : Option (List ℤ) → ℤ → Option (List ℤ)
consed none i = none
consed (some is) i = some (i ∷ is)

abbrev pub numbers : Items → Option (List ℤ)
numbers nil = some []
numbers (cons (int i) vs) = consed (numbers vs) i
numbers (cons (float r none) vs) = none
numbers (cons (float r (some i)) vs) = consed (numbers vs) i
numbers (cons (bool true) vs) = consed (numbers vs) (pos 1)
numbers (cons (bool false) vs) = consed (numbers vs) (pos 0)
numbers (cons null vs) = none
numbers (cons (str s) vs) = none
numbers (cons (arr ws) vs) = none
numbers (cons (obj fs) vs) = none

-- A floating point number is no index, also where it equals one.
abbrev pub has_float : Items → Bool
has_float nil = false
has_float (cons (float r w) vs) = true
has_float (cons v vs) = has_float vs

abbrev pub count_of : Items → ℕ
count_of nil = 0
count_of (cons v vs) = suc (count_of vs)

-- steps[i], for an index that is in range
abbrev pub at : ℕ → List PlanStep → List PlanStep → List PlanStep
at n [] rest = rest
at zero (s ∷ steps) rest = s ∷ rest
at (suc n) (s ∷ steps) rest = at n steps rest

abbrev pub pick : List PlanStep → List ℤ → List PlanStep
pick steps [] = []
pick steps (pos n ∷ is) = at n steps (pick steps is)
pick steps (ℤ.negsuc n ∷ is) = pick steps is

-- s.get(…) for each of the sub-intents: they are a list of objects.
abbrev pub are_objects : Items → Bool
are_objects nil = true
are_objects (cons (obj fs) vs) = are_objects vs
are_objects (cons v vs) = false

abbrev pub is_object_list : Json → Bool
is_object_list (arr vs) = are_objects vs
is_object_list v = false

abbrev pub sub_intents : Fields → Option Json
sub_intents decomposition = elim (get_field (codes "sub_intents") decomposition) [
  | none ↦ none
  | some v ↦ if truthy v then some v else none
]

-- `sorts` tells whether Python's `sorted` accepts a list that holds something that equals no
-- integer. What raises leaves the method: none.
module _ (loads : Text → Answer Json) (sorts : Items → Bool) where
  abbrev pub by_numbers : List PlanStep → Items → Option (List ℤ) → Option (List PlanStep)
  by_numbers steps vs none = if sorts vs then some steps else none
  by_numbers steps vs (some order) =
      if ints_eq (sort order) (range_from 0 (length steps))
      then (if has_float vs then none else some (pick steps order))
      else some steps

  -- What `answer.get("order")` makes of the steps.
  unfoldable pub apply_order : List PlanStep → Option Json → Option (List PlanStep)
  apply_order steps (some (arr vs)) =
      if nat_eq (count_of vs) (length steps) then by_numbers steps vs (numbers vs) else some steps
  apply_order steps _ = some steps

  -- An answer that is no object is a `ValueError`, which is caught as well.
  abbrev pub after_answer : List PlanStep → Answer Json → Option (List PlanStep)
  after_answer steps (answered (obj fs)) = apply_order steps (get_field (codes "order") fs)
  after_answer steps _ = some steps

  abbrev pub parsed_reply : Answer ModelReply → Answer Json
  parsed_reply (failed why) = failed why
  parsed_reply (answered reply) = parse loads reply

  -- `llm` is the model that was passed or that `get_llm` returns, none where that raises; it is shown
  -- the steps and the decomposition.
  unfoldable pub order_steps :
      (llm : Option (List PlanStep → Fields → Answer ModelReply))
      → List PlanStep
      → (decomposition : Fields) → Option (List PlanStep)
  unfolding apply_order
  order_steps llm steps decomposition =
      if ltb (length steps) 2 then some steps else elim (sub_intents decomposition) [
        | none ↦ some steps
        | some subs ↦ elim llm [
          | none ↦ some steps
          | some ainvoke ↦
              if is_object_list subs
              then after_answer steps (parsed_reply (ainvoke steps decomposition))
              else none
        ]
      ]
