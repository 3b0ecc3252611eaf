-- ===== src/Negotiation/Within.antt =====
-- Whatever the ordering returns are the steps it was given:
-- agentic_bus/coordinator/negotiation/engine.py.
use mathlib.Core.List.{Permᴰ}
use agentic_bus.Common.{
  List, Bool, Option, none, some, Option-cases, Bool-cases, Text, codes, length, ltb, nat_eq, In, ℤ,
  Json, null, bool, int, float, str, arr, obj, Items, Fields, get_field, ◌≡◌, ◌⊎◌, inl, inr, refl,
  sym, ◌∙◌,
}
use agentic_bus.Sessions.{PlanStep}
use agentic_bus.Inputs.Parsing.{Answer, answered, failed, ModelReply}
use agentic_bus.Negotiation.Ordering.{
  numbers, has_float, ints_eq, sort, range_from, count_of, is_object_list, sub_intents, by_numbers,
  apply_order, after_answer, parsed_reply, order_steps,
}
use agentic_bus.Negotiation.Permutation.{IsReordered, unchanged, by_numbers-IsReordered}

abbrev MayReorder : List PlanStep → Option (List PlanStep) → Type 0
MayReorder steps result = (result ≡ none) ⊎ IsReordered steps result

In-perm : {A : Type 0} (a : A) {xs ys : List A} → Permᴰ xs ys → In a ys → In a xs
In-perm a Permᴰ.nil m = m
In-perm a (Permᴰ.cons e p) (inl same) = inl (same ∙ sym e)
In-perm a (Permᴰ.cons e p) (inr later) = inr (In-perm a p later)
In-perm a (Permᴰ.swap e d) (inl same) = inr (inl (same ∙ sym d))
In-perm a (Permᴰ.swap e d) (inr (inl same)) = inl (same ∙ sym e)
In-perm a (Permᴰ.swap e d) (inr (inr later)) = inr (inr later)
In-perm a (Permᴰ.trans p q) m = In-perm a p (In-perm a q m)

module _ (loads : Text → Answer Json) (sorts : Items → Bool) where
  by_numbers-MayReorder :
      (steps : List PlanStep) (vs : Items) (order : Option (List ℤ))
      → MayReorder steps (by_numbers loads sorts steps vs order)
  by_numbers-MayReorder steps vs none = elim (Bool-cases (sorts vs)) [
    | inl e ↦ rw e (inr (unchanged steps))
    | inr e ↦ rw e (inl refl)
  ]
  by_numbers-MayReorder steps vs (some order) = elim (Bool-cases (has_float vs)) [
    | inr exact ↦ inr (by_numbers-IsReordered loads sorts steps vs (some order) (λ e. cc) exact)
    | inl inexact ↦ elim (Bool-cases (ints_eq (sort order) (range_from 0 (length steps)))) [
      | inl e ↦ rw (e, inexact) (inl refl)
      | inr e ↦ rw e (inr (unchanged steps))
    ]
  ]

  apply_order-MayReorder :
      (steps : List PlanStep) (order : Option Json)
      → MayReorder steps (apply_order loads sorts steps order)
  unfolding apply_order
  apply_order-MayReorder steps none = inr (unchanged steps)
  apply_order-MayReorder steps (some null) = inr (unchanged steps)
  apply_order-MayReorder steps (some (bool b)) = inr (unchanged steps)
  apply_order-MayReorder steps (some (int n)) = inr (unchanged steps)
  apply_order-MayReorder steps (some (float r w)) = inr (unchanged steps)
  apply_order-MayReorder steps (some (str s)) = inr (unchanged steps)
  apply_order-MayReorder steps (some (obj fs)) = inr (unchanged steps)
  apply_order-MayReorder steps (some (arr vs)) =
      elim (Bool-cases (nat_eq (count_of vs) (length steps))) [
        | inl e ↦ rw e (by_numbers-MayReorder steps vs (numbers vs))
        | inr e ↦ rw e (inr (unchanged steps))
      ]

  after_answer-MayReorder :
      (steps : List PlanStep) (answer : Answer Json)
      → MayReorder steps (after_answer loads sorts steps answer)
  after_answer-MayReorder steps (failed why) = inr (unchanged steps)
  after_answer-MayReorder steps (answered null) = inr (unchanged steps)
  after_answer-MayReorder steps (answered (bool b)) = inr (unchanged steps)
  after_answer-MayReorder steps (answered (int n)) = inr (unchanged steps)
  after_answer-MayReorder steps (answered (float r w)) = inr (unchanged steps)
  after_answer-MayReorder steps (answered (str s)) = inr (unchanged steps)
  after_answer-MayReorder steps (answered (arr vs)) = inr (unchanged steps)
  after_answer-MayReorder steps (answered (obj fs)) =
      apply_order-MayReorder steps (get_field (codes "order") fs)

  order_steps-MayReorder :
      (llm : Option (List PlanStep → Fields → Answer ModelReply)) (steps : List PlanStep)
      (decomposition : Fields)
      → MayReorder steps (order_steps loads sorts llm steps decomposition)
  unfolding order_steps
  order_steps-MayReorder llm steps decomposition = elim (Bool-cases (ltb (length steps) 2)) [
    | inl e ↦ rw e (inr (unchanged steps))
    | inr e ↦ elim (Option-cases (sub_intents decomposition)) [
      | inl none_left ↦ rw (e, none_left) (inr (unchanged steps))
      | inr (subs, found) ↦ elim (Option-cases llm) [
        | inl absent ↦ rw (e, found, absent) (inr (unchanged steps))
        | inr (ainvoke, present) ↦ elim (Bool-cases (is_object_list subs)) [
          | inl good ↦
              rw (e, found, present, good)
                (after_answer-MayReorder steps
                  (parsed_reply loads sorts (ainvoke steps decomposition)))
          | inr bad ↦ rw (e, found, present, bad) (inl refl)
        ]
      ]
    ]
  ]

  -- Each step that the ordering returns is one that it was given.
  pub order_steps-In :
      (llm : Option (List PlanStep → Fields → Answer ModelReply)) (steps : List PlanStep)
      (decomposition : Fields) (ordered : List PlanStep)
      → order_steps loads sorts llm steps decomposition ≡ some ordered
      → (s : PlanStep) → In s ordered
      → In s steps
  order_steps-In llm steps decomposition ordered e s m =
      elim (order_steps-MayReorder llm steps decomposition) [
        | inl raised ↦ cc
        | inr (found, d, p) ↦ let same : ordered ≡ found = cc in In-perm s p (rw same at m)
      ]
