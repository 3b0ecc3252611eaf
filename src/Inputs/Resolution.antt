-- ===== src/Inputs/Resolution.antt =====
-- `resolve_refs`, with `_is_ref`, `_walk_path` and `_project`, of agentic_bus/core/step_inputs.py.
use agentic_bus.Common.{
  ℕ, zero, suc, List, [], ◌∷◌, not, Option, none, some, if◌then◌else◌, Text, codes, is_empty, keep,
  split_on, Dict, lookup, Json, null, bool, int, float, str, arr, obj, Items, nil, cons, Fields,
  end, field, get_field, all_digits, int_of,
}

-- What the code raises: `KeyError` with its key, `IndexError`, the `TypeError` of a list or an object
-- as a key, the exceptions of `dict` on a value that is no object, and those of a validator.
pub data Failure : Type 0 where
  key_error : Json → Failure
  index_error type_error value_error validator_error : Failure

pub data Resolved (A : Type 0) : Type 0 where
  ok : A → Resolved A
  raised : Failure → Resolved A

abbrev pub bind_ok : {A B : Type 0} → Resolved A → (A → Resolved B) → Resolved B
bind_ok (ok a) next = next a
bind_ok (raised e) next = raised e

abbrev pub map_ok : {A B : Type 0} → (A → B) → Resolved A → Resolved B
map_ok f (ok a) = ok (f a)
map_ok f (raised e) = raised e

abbrev pub from_key : Text
from_key = codes "$from"

abbrev pub path_key : Text
path_key = codes "$path"

abbrev pub fields_key : Text
fields_key = codes "$fields"

-- value[n]
abbrev pub item_at : ℕ → Items → Option Json
item_at n nil = none
item_at zero (cons v vs) = some v
item_at (suc n) (cons v vs) = item_at n vs

abbrev pub or_raise : Failure → Option Json → Resolved Json
or_raise e none = raised e
or_raise e (some v) = ok v

-- One part of a path; a part that does not fit the value is a `KeyError` of the whole path.
abbrev pub step_into : (path part : Text) → Json → Resolved Json
step_into path part (obj fs) = or_raise (key_error (str part)) (get_field part fs)
step_into path part (arr vs) =
    if all_digits part
    then or_raise index_error (item_at (int_of part) vs)
    else raised (key_error (str path))
step_into path part v = raised (key_error (str path))

abbrev pub walk_parts : (path : Text) → List Text → Json → Resolved Json
walk_parts path [] v = ok v
walk_parts path (part ∷ parts) v = bind_ok (step_into path part v) (walk_parts path parts)

abbrev pub dot : ℕ
dot = 46

unfoldable pub walk_path : Json → Text → Resolved Json
walk_path v path = walk_parts path (keep (λ part. not (is_empty part)) (split_on dot path)) v

abbrev pub kept_field : Text → Option Json → Fields → Fields
kept_field dest none rest = rest
kept_field dest (some v) rest = field dest v rest

-- {dest: obj[src] for dest, src in fields.items() if src in obj}
unfoldable pub select : Dict Text → Fields → Fields
select [] fs = end
select ((dest, src) ∷ fields) fs = kept_field dest (get_field src fs) (select fields fs)

abbrev pub project_one : Dict Text → Json → Json
project_one fields (obj fs) = obj (select fields fs)
project_one fields v = v

abbrev pub project_items : Dict Text → Items → Items
project_items fields nil = nil
project_items fields (cons v vs) = cons (project_one fields v) (project_items fields vs)

unfoldable pub project : Json → Dict Text → Json
project (arr vs) fields = arr (project_items fields vs)
project v fields = project_one fields v

-- `str_of` is Python's `str` on a value that was decoded from JSON.
module _ (str_of : Json → Text) where
  -- {str(k): str(v) for k, v in fields.items()}
  abbrev pub text_fields : Fields → Dict Text
  text_fields end = []
  text_fields (field k v fs) = (k, str_of v) ∷ text_fields fs

  abbrev pub walked : Fields → Json → Resolved Json
  walked fs value = elim (get_field path_key fs) [
    | none ↦ ok value
    | some path ↦ walk_path value (str_of path)
  ]

  abbrev pub projected : Option Json → Json → Json
  projected (some (obj fields)) value = project value (text_fields fields)
  projected _ value = value

-- memory[key], for a key that the model gave
abbrev pub entry : Dict Json → Json → Resolved Json
entry memory (str k) = or_raise (key_error (str k)) (lookup k memory)
entry memory (arr vs) = raised type_error
entry memory (obj fs) = raised type_error
entry memory v = raised (key_error v)

module _ (str_of : Json → Text) (memory : Dict Json) where
  unfoldable pub dereference : Fields → Json → Resolved Json
  dereference fs key =
      map_ok (projected str_of (get_field fields_key fs))
        (bind_ok (entry memory key) (walked str_of fs))

  -- An object with a "$from" is a reference, whatever else it holds.
  abbrev pub reference_or : Option Json → Fields → Resolved Json → Resolved Json
  reference_or none fs rest = rest
  reference_or (some key) fs rest = dereference fs key

  unfoldable mutual
    pub resolve_refs : Json → Resolved Json
    resolve_refs null = ok null
    resolve_refs (bool b) = ok (bool b)
    resolve_refs (int n) = ok (int n)
    resolve_refs (float r w) = ok (float r w)
    resolve_refs (str s) = ok (str s)
    resolve_refs (arr vs) = map_ok arr (resolve_items vs)
    resolve_refs (obj fs) = reference_or (get_field from_key fs) fs (map_ok obj (resolve_fields fs))

    pub resolve_items : Items → Resolved Items
    resolve_items nil = ok nil
    resolve_items (cons v vs) = bind_ok (resolve_refs v) (λ w. map_ok (cons w) (resolve_items vs))

    pub resolve_fields : Fields → Resolved Fields
    resolve_fields end = ok end
    resolve_fields (field k v fs) =
        bind_ok (resolve_refs v) (λ w. map_ok (field k w) (resolve_fields fs))
