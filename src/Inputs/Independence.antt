-- ===== src/Inputs/Independence.antt =====
-- What the resolution of references depends on, and when it succeeds: agentic_bus/core/step_inputs.py.
use agentic_bus.Common.{
  List, [], ◌∷◌, ◌++◌, Option-cases, Text, Dict, lookup, In, In-append_left, In-append_right, Json,
  null, bool, int, float, str, arr, obj, Items, nil, cons, Fields, end, field, get_field, ◌≡◌, inl,
  inr, refl,
}
use agentic_bus.Inputs.Resolution.{
  from_key, entry, dereference, resolve_refs, resolve_items, resolve_fields,
}
use agentic_bus.Inputs.Granted.{references, references_items, references_fields}

-- The two memories hold the same under each of the keys.
abbrev pub Agree : Dict Json → Dict Json → List Json → Type 0
Agree memory memory' names =
    (name : Text) → In (str name) names → lookup name memory ≡ lookup name memory'

module _ (str_of : Json → Text) (memory memory' : Dict Json) where
  Agree-left : (ks js : List Json) → Agree memory memory' (ks ++ js) → Agree memory memory' ks
  Agree-left ks js h name m = h name (In-append_left (str name) ks js m)

  Agree-right : (ks js : List Json) → Agree memory memory' (ks ++ js) → Agree memory memory' js
  Agree-right ks js h name m = h name (In-append_right (str name) ks js m)

  entry-Agree :
      (key : Json) → Agree memory memory' (key ∷ []) → entry memory key ≡ entry memory' key
  entry-Agree null h = refl
  entry-Agree (bool b) h = refl
  entry-Agree (int n) h = refl
  entry-Agree (float r w) h = refl
  entry-Agree (arr vs) h = refl
  entry-Agree (obj fs) h = refl
  entry-Agree (str k) h = rw (h k (inl refl)) refl

  dereference-Agree :
      (fs : Fields) (key : Json)
      → Agree memory memory' (key ∷ [])
      → dereference str_of memory fs key ≡ dereference str_of memory' fs key
  unfolding dereference
  dereference-Agree fs key h = rw (entry-Agree key h) refl

  mutual
    unfolding resolve_refs references

    value-Agree :
        (j : Json)
        → Agree memory memory' (references j)
        → resolve_refs str_of memory j ≡ resolve_refs str_of memory' j
    value-Agree null h = refl
    value-Agree (bool b) h = refl
    value-Agree (int n) h = refl
    value-Agree (float r w) h = refl
    value-Agree (str s) h = refl
    value-Agree (arr vs) h = rw (resolve_items-Agree vs h) refl
    value-Agree (obj fs) h = elim (Option-cases (get_field from_key fs)) [
      | inl e ↦ rw e (rw (resolve_fields-Agree fs (rw e at h)) refl)
      | inr (key, e) ↦ rw e (dereference-Agree fs key (rw e at h))
    ]

    resolve_items-Agree :
        (vs : Items)
        → Agree memory memory' (references_items vs)
        → resolve_items str_of memory vs ≡ resolve_items str_of memory' vs
    resolve_items-Agree nil h = refl
    resolve_items-Agree (cons v vs) h =
        rw
          (
            value-Agree v (Agree-left (references v) (references_items vs) h),
            resolve_items-Agree vs (Agree-right (references v) (references_items vs) h),
          )
          refl

    resolve_fields-Agree :
        (fs : Fields)
        → Agree memory memory' (references_fields fs)
        → resolve_fields str_of memory fs ≡ resolve_fields str_of memory' fs
    resolve_fields-Agree end h = refl
    resolve_fields-Agree (field k v fs) h =
        rw
          (
            value-Agree v (Agree-left (references v) (references_fields fs) h),
            resolve_fields-Agree fs (Agree-right (references v) (references_fields fs) h),
          )
          refl

  -- A request sees nothing of the memory but the entries that its own references name: where two
  -- memories agree on these, it resolves to the same, or fails the same way.
  pub resolve_refs-Agree :
      (j : Json)
      → Agree memory memory' (references j)
      → resolve_refs str_of memory j ≡ resolve_refs str_of memory' j
  resolve_refs-Agree j h = value-Agree j h
