-- ===== src/Inputs/Granted.antt =====
-- What the references of a composed request may read: agentic_bus/core/step_inputs.py.
use agentic_bus.Common.{
  List, [], ◌∷◌, ◌++◌, Option, none, some, Option-cases, Text, Dict, lookup, In, In-append_cases,
  Json, null, bool, int, float, str, arr, obj, Items, nil, cons, Fields, end, field, get_field, ◌≡◌,
  inl, inr, refl,
}
use agentic_bus.Inputs.Resolution.{
  ok, raised, Resolved, bind_ok, map_ok, from_key, entry, dereference, resolve_refs, resolve_items,
  resolve_fields,
}

abbrev pub named_or : Option Json → List Json → List Json
named_or none rest = rest
named_or (some key) rest = key ∷ []

-- The keys that a request's references name, in the request's order.
unfoldable mutual
  pub references : Json → List Json
  references null = []
  references (bool b) = []
  references (int n) = []
  references (float r w) = []
  references (str s) = []
  references (arr vs) = references_items vs
  references (obj fs) = named_or (get_field from_key fs) (references_fields fs)

  pub references_items : Items → List Json
  references_items nil = []
  references_items (cons v vs) = references v ++ references_items vs

  pub references_fields : Fields → List Json
  references_fields end = []
  references_fields (field k v fs) = references v ++ references_fields fs

-- The key is a text under which the memory holds a value.
abbrev pub Readable : Dict Json → Json → Type 0
Readable memory key =
    (name : Text) × (value : Json) × (key ≡ str name) × (lookup name memory ≡ some value)

pub map_ok-inv :
    {A B : Type 0} (f : A → B) (r : Resolved A) (b : B) → map_ok f r ≡ ok b → (a : A) × (r ≡ ok a)
map_ok-inv f (ok a) b h = (a, refl)
map_ok-inv f (raised e) b h = cc

pub bind_ok-inv :
    {A B : Type 0} (r : Resolved A) (next : A → Resolved B) (b : B)
    → bind_ok r next ≡ ok b
    → (a : A) × (r ≡ ok a) × (next a ≡ ok b)
bind_ok-inv (ok a) next b h = (a, refl, h)
bind_ok-inv (raised e) next b h = cc

entry-ok : (memory : Dict Json) (key v : Json) → entry memory key ≡ ok v → Readable memory key
entry-ok memory null v h = cc
entry-ok memory (bool b) v h = cc
entry-ok memory (int n) v h = cc
entry-ok memory (float r w) v h = cc
entry-ok memory (arr vs) v h = cc
entry-ok memory (obj fs) v h = cc
entry-ok memory (str k) v h = elim (Option-cases (lookup k memory)) [
  | inl e ↦ absurd (refuse (rw e at h))
  | inr (value, e) ↦ (k, value, refl, e)
]
  where
    refuse : {e : _} → raised e ≡ ok v → ⊥
    refuse p = cc

module _ (str_of : Json → Text) (memory : Dict Json) where
  dereference-ok :
      (fs : Fields) (key v : Json) → dereference str_of memory fs key ≡ ok v → Readable memory key
  unfolding dereference
  dereference-ok fs key v h =
      let (_, e) = map_ok-inv _ _ v h in
      let (a, e', _) = bind_ok-inv (entry memory key) _ _ e in entry-ok memory key a e'

  mutual
    unfolding resolve_refs references

    -- Where a request resolves, each of its references names a key under which the memory holds a value.
    pub granted :
        (j v key : Json)
        → resolve_refs str_of memory j ≡ ok v
        → In key (references j)
        → Readable memory key
    granted null v key h m = absurd m
    granted (bool b) v key h m = absurd m
    granted (int n) v key h m = absurd m
    granted (float r w) v key h m = absurd m
    granted (str s) v key h m = absurd m
    granted (arr vs) v key h m =
        let (ws, e) = map_ok-inv _ (resolve_items str_of memory vs) v h in
        granted_items vs ws key e m
    granted (obj fs) v key h m = elim (Option-cases (get_field from_key fs)) [
      | inl e ↦
          let (ws, e') = map_ok-inv _ (resolve_fields str_of memory fs) v (rw e at h) in
          granted_fields fs ws key e' (rw e at m)
      | inr (k, e) ↦ elim (rw e at m) [
        | inl same ↦ rw same (dereference-ok fs k v (rw e at h))
        | inr none_left ↦ absurd none_left
      ]
    ]

    granted_items :
        (vs ws : Items) (key : Json)
        → resolve_items str_of memory vs ≡ ok ws
        → In key (references_items vs)
        → Readable memory key
    granted_items nil ws key h m = absurd m
    granted_items (cons v vs) ws key h m =
        let (w, e, h') = bind_ok-inv (resolve_refs str_of memory v) _ ws h in
        let (_, e') = map_ok-inv _ (resolve_items str_of memory vs) ws h' in
        elim (In-append_cases key (references v) (references_items vs) m) [
          | inl here ↦ granted v w key e here
          | inr there ↦ granted_items vs _ key e' there
        ]

    granted_fields :
        (fs ws : Fields) (key : Json)
        → resolve_fields str_of memory fs ≡ ok ws
        → In key (references_fields fs)
        → Readable memory key
    granted_fields end ws key h m = absurd m
    granted_fields (field k v fs) ws key h m =
        let (w, e, h') = bind_ok-inv (resolve_refs str_of memory v) _ ws h in
        let (_, e') = map_ok-inv _ (resolve_fields str_of memory fs) ws h' in
        elim (In-append_cases key (references v) (references_fields fs) m) [
          | inl here ↦ granted v w key e here
          | inr there ↦ granted_fields fs _ key e' there
        ]
