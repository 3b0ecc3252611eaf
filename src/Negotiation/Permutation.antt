-- ===== src/Negotiation/Permutation.antt =====
-- The order of a plan's steps never changes which steps there are:
-- agentic_bus/coordinator/negotiation/engine.py.
use mathlib.Core.List.{Permᴰ}
use mathlib.Core.List.Permᴰ
use agentic_bus.Common.{
  ℕ, zero, suc, List, [], ◌∷◌, Bool, true, false, Option, none, some, Option-cases, Bool-cases,
  Text, codes, length, ltb, nat_eq, int_eq_iff, int_leb, ℤ, pos, Json, null, bool, int, float, str,
  arr, obj, Items, Fields, get_field, ◌≡◌, ◌⊎◌, inl, inr, refl, sym, subst, ap, ◌∙◌, arith,
}
use agentic_bus.Sessions.{PlanStep}
use agentic_bus.Inputs.Parsing.{Answer, answered, failed, ModelReply}
use agentic_bus.Negotiation.Ordering.{
  insert_sorted, sort, ints_eq, range_from, count_of, has_float, numbers, at, pick, is_object_list,
  sub_intents, by_numbers, apply_order, after_answer, parsed_reply, order_steps,
}

pub ints_eq_sound : (is js : List ℤ) → ints_eq is js ≡ true → is ≡ js
ints_eq_sound [] [] h = refl
ints_eq_sound [] (j ∷ js) h = cc
ints_eq_sound (i ∷ is) [] h = cc
ints_eq_sound (i ∷ is) (j ∷ js) h = ground (arith, int_eq_iff i j, ints_eq_sound is js)

Perm-insert_sorted : (i : ℤ) (js : List ℤ) → Permᴰ (i ∷ js) (insert_sorted i js)
Perm-insert_sorted i [] = Permᴰ.refl (i ∷ [])
Perm-insert_sorted i (j ∷ js) = elim (Bool-cases (int_leb i j)) [
  | inl e ↦ rw e (Permᴰ.refl (i ∷ j ∷ js))
  | inr e ↦ rw e (Permᴰ.trans (Permᴰ.swap refl refl) (Permᴰ.cons refl (Perm-insert_sorted i js)))
]

pub Perm-sort : (is : List ℤ) → Permᴰ is (sort is)
Perm-sort [] = Permᴰ.nil
Perm-sort (i ∷ is) = Permᴰ.trans (Permᴰ.cons refl (Perm-sort is)) (Perm-insert_sorted i (sort is))

-- An index adds one step, or none, whatever comes behind it.
abbrev Adds : (List PlanStep → List PlanStep) → Type 0
Adds f =
    ((rest : List PlanStep) → f rest ≡ rest)
    ⊎ ((s : PlanStep) × ((rest : List PlanStep) → f rest ≡ s ∷ rest))

Adds-at : (n : ℕ) (steps : List PlanStep) → Adds (at n steps)
Adds-at n [] = inl (λ rest. refl)
Adds-at zero (s ∷ steps) = inr (s, λ rest. refl)
Adds-at (suc n) (s ∷ steps) = Adds-at n steps

abbrev add : List PlanStep → ℤ → List PlanStep → List PlanStep
add steps (pos n) rest = at n steps rest
add steps (ℤ.negsuc n) rest = rest

Adds-add : (steps : List PlanStep) (i : ℤ) → Adds (add steps i)
Adds-add steps (pos n) = Adds-at n steps
Adds-add steps (ℤ.negsuc n) = inl (λ rest. refl)

pick-add :
    (steps : List PlanStep) (i : ℤ) (is : List ℤ)
    → pick steps (i ∷ is) ≡ add steps i (pick steps is)
pick-add steps (pos n) is = refl
pick-add steps (ℤ.negsuc n) is = refl

Perm-Adds :
    (f : List PlanStep → List PlanStep) (xs ys : List PlanStep)
    → Adds f
    → Permᴰ xs ys
    → Permᴰ (f xs) (f ys)
Perm-Adds f xs ys (inl e) p = rw (e xs, e ys) p
Perm-Adds f xs ys (inr (s, e)) p = rw (e xs, e ys) (Permᴰ.cons refl p)

Perm-Adds_swap :
    (f g : List PlanStep → List PlanStep) (xs : List PlanStep)
    → Adds f
    → Adds g
    → Permᴰ (f (g xs)) (g (f xs))
Perm-Adds_swap f g xs (inl e) d = rw (e (g xs), e xs) (Permᴰ.refl (g xs))
Perm-Adds_swap f g xs (inr (s, e)) (inl d) = rw (d xs, d (f xs)) (Permᴰ.refl (f xs))
Perm-Adds_swap f g xs (inr (s, e)) (inr (t, d)) =
    rw (e (g xs), d (f xs), e xs, d xs) (Permᴰ.swap refl refl)

pub Perm-pick :
    (steps : List PlanStep) {is js : List ℤ} → Permᴰ is js → Permᴰ (pick steps is) (pick steps js)
Perm-pick steps Permᴰ.nil = Permᴰ.nil
Perm-pick steps (Permᴰ.cons {a = i} {l₁ = is} {l₂ = js} e p) =
    rw (sym e, pick-add steps i is, pick-add steps i js)
      (Perm-Adds (add steps i) _ _ (Adds-add steps i) (Perm-pick steps p))
Perm-pick steps (Permᴰ.swap {a = i} {b = j} {l = is} e d) =
    rw
      (
        sym e,
        sym d,
        pick-add steps i (j ∷ is),
        pick-add steps j is,
        pick-add steps j (i ∷ is),
        pick-add steps i is,
      )
      (Perm-Adds_swap (add steps i) (add steps j) (pick steps is) (Adds-add steps i)
        (Adds-add steps j))
Perm-pick steps (Permᴰ.trans p q) = Permᴰ.trans (Perm-pick steps p) (Perm-pick steps q)

pick-shift :
    (s : PlanStep) (steps : List PlanStep) (k n : ℕ)
    → pick (s ∷ steps) (range_from (suc k) n) ≡ pick steps (range_from k n)
pick-shift s steps k zero = refl
pick-shift s steps k (suc n) = ap (at k steps) (pick-shift s steps (suc k) n)

pub pick-range : (steps : List PlanStep) → pick steps (range_from 0 (length steps)) ≡ steps
pick-range [] = refl
pick-range (s ∷ steps) =
    ap (λ rest. s ∷ rest) (pick-shift s steps 0 (length steps) ∙ pick-range steps)

-- The steps come out, in some order.
abbrev pub IsReordered : List PlanStep → Option (List PlanStep) → Type 0
IsReordered steps result = (ordered : List PlanStep) × (result ≡ some ordered) × Permᴰ steps ordered

pub unchanged : (steps : List PlanStep) → IsReordered steps (some steps)
unchanged steps = (steps, refl, Permᴰ.refl steps)

module _ (loads : Text → Answer Json) (sorts : Items → Bool) where
  -- `sorted` accepts the list, which holds integers alone or is one that it can sort, and no floating
  -- point number is in it.
  abbrev pub IsSortable : Items → Type 0
  IsSortable vs = (numbers vs ≡ none → sorts vs ≡ true) × (has_float vs ≡ false)

  abbrev pub HasSortableOrder : Answer Json → Type 0
  HasSortableOrder (answered (obj fs)) =
      (vs : Items) → get_field (codes "order") fs ≡ some (arr vs) → IsSortable vs
  HasSortableOrder _ = Unit {0}

  pub by_numbers-IsReordered :
      (steps : List PlanStep) (vs : Items) (order : Option (List ℤ))
      → (order ≡ none → sorts vs ≡ true)
      → has_float vs ≡ false
      → IsReordered steps (by_numbers loads sorts steps vs order)
  by_numbers-IsReordered steps vs none h exact = rw (h refl) (unchanged steps)
  by_numbers-IsReordered steps vs (some order) h exact =
      elim (Bool-cases (ints_eq (sort order) (range_from 0 (length steps)))) [
        | inr e ↦ rw e (unchanged steps)
        | inl e ↦
            rw (e, exact)
              (
                pick steps order,
                refl,
                Permᴰ.symm (
                    subst (Permᴰ (pick steps order))
                      (ap (pick steps) (ints_eq_sound (sort order) (range_from 0 (length steps)) e)
                        ∙ pick-range steps)
                      (Perm-pick steps (Perm-sort order))),
              )
      ]

  apply_order-IsReordered :
      (steps : List PlanStep) (order : Option Json)
      → ((vs : Items) → order ≡ some (arr vs) → IsSortable vs)
      → IsReordered steps (apply_order loads sorts steps order)
  unfolding apply_order
  apply_order-IsReordered steps none h = unchanged steps
  apply_order-IsReordered steps (some null) h = unchanged steps
  apply_order-IsReordered steps (some (bool b)) h = unchanged steps
  apply_order-IsReordered steps (some (int n)) h = unchanged steps
  apply_order-IsReordered steps (some (float r w)) h = unchanged steps
  apply_order-IsReordered steps (some (str s)) h = unchanged steps
  apply_order-IsReordered steps (some (obj fs)) h = unchanged steps
  apply_order-IsReordered steps (some (arr vs)) h =
      elim (Bool-cases (nat_eq (count_of vs) (length steps))) [
        | inl e ↦ rw e (by_numbers-IsReordered steps vs (numbers vs) (h vs refl).0 (h vs refl).1)
        | inr e ↦ rw e (unchanged steps)
      ]

  after_answer-IsReordered :
      (steps : List PlanStep) (answer : Answer Json)
      → HasSortableOrder answer
      → IsReordered steps (after_answer loads sorts steps answer)
  after_answer-IsReordered steps (failed why) h = unchanged steps
  after_answer-IsReordered steps (answered null) h = unchanged steps
  after_answer-IsReordered steps (answered (bool b)) h = unchanged steps
  after_answer-IsReordered steps (answered (int n)) h = unchanged steps
  after_answer-IsReordered steps (answered (float r w)) h = unchanged steps
  after_answer-IsReordered steps (answered (str s)) h = unchanged steps
  after_answer-IsReordered steps (answered (arr vs)) h = unchanged steps
  after_answer-IsReordered steps (answered (obj fs)) h =
      apply_order-IsReordered steps (get_field (codes "order") fs) h

  -- Where the sub-intents are a list of objects, and a list that the model gives as the order is one
  -- that `sorted` accepts and holds no floating point number, the steps come out as a permutation of
  -- what went in, whatever else the model answers: none is dropped, repeated or invented.
  pub order_steps-IsReordered :
      (ainvoke : List PlanStep → Fields → Answer ModelReply) (steps : List PlanStep)
      (decomposition : Fields)
      → ((subs : Json) → sub_intents decomposition ≡ some subs → is_object_list subs ≡ true)
      → HasSortableOrder (parsed_reply loads sorts (ainvoke steps decomposition))
      → IsReordered steps (order_steps loads sorts (some ainvoke) steps decomposition)
  unfolding order_steps
  order_steps-IsReordered ainvoke steps decomposition wellformed sortable =
      elim (Bool-cases (ltb (length steps) 2)) [
        | inl e ↦ rw e (unchanged steps)
        | inr e ↦ elim (Option-cases (sub_intents decomposition)) [
          | inl none_left ↦ rw (e, none_left) (unchanged steps)
          | inr (subs, found) ↦
              rw (e, found, wellformed subs found)
                (after_answer-IsReordered steps
                  (parsed_reply loads sorts (ainvoke steps decomposition)) sortable)
        ]
      ]

-- A decomposition whose sub-intents are not all objects makes the ordering raise, where a model is
-- there to be asked and the plan has two steps or more.
pub order_steps-raises :
    (loads : Text → Answer Json) (sorts : Items → Bool)
    (ainvoke : List PlanStep → Fields → Answer ModelReply) (steps : List PlanStep)
    (decomposition : Fields) (subs : Json)
    → ltb (length steps) 2 ≡ false
    → sub_intents decomposition ≡ some subs
    → is_object_list subs ≡ false
    → order_steps loads sorts (some ainvoke) steps decomposition ≡ none
unfolding order_steps
order_steps-raises loads sorts ainvoke steps decomposition subs long found bad =
    rw (long, found, bad) refl
