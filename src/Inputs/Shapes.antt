-- ===== src/Inputs/Shapes.antt =====
-- `describe_shape` of agentic_bus/core/step_inputs.py, and the proof that it shows no value.
use agentic_bus.Common.{
  ℕ, zero, suc, List, [], ◌∷◌, ◌++◌, false, if◌then◌else◌, Text, codes, leb, elem, length, Json,
  null, bool, int, float, str, arr, obj, Items, nil, cons, Fields, end, field, pos, decimal, ◌≡◌,
  refl, ap, none,
}
use agentic_bus.Schemas.{join}

abbrev pub shape_sample : ℕ
shape_sample = 3

abbrev pub shape_keys : ℕ
shape_keys = 12

abbrev pub take : {A : Type 0} → ℕ → List A → List A
take zero xs = []
take (suc n) [] = []
take (suc n) (x ∷ xs) = x ∷ take n xs

abbrev pub keys_of : Fields → List Text
keys_of end = []
keys_of (field k v fs) = k ∷ keys_of fs

abbrev pub count_items : Items → ℕ
count_items nil = 0
count_items (cons v vs) = suc (count_items vs)

-- keys.update(dict.fromkeys(item))
abbrev pub add_keys : List Text → List Text → List Text
add_keys seen [] = seen
add_keys seen (k ∷ ks) = add_keys (if elem k seen then seen else seen ++ k ∷ []) ks

abbrev pub sampled_keys : ℕ → List Text → Items → List Text
sampled_keys zero seen vs = seen
sampled_keys (suc n) seen nil = seen
sampled_keys (suc n) seen (cons (obj fs) vs) = sampled_keys n (add_keys seen (keys_of fs)) vs
sampled_keys (suc n) seen (cons v vs) = sampled_keys n seen vs

-- type(value).__name__
abbrev pub type_name : Json → Text
type_name null = codes "NoneType"
type_name (bool b) = codes "bool"
type_name (int n) = codes "int"
type_name (float r w) = codes "float"
type_name (str s) = codes "str"
type_name (arr vs) = codes "list"
type_name (obj fs) = codes "dict"

abbrev pub braced : List Text → Text → Text
braced ks more = codes "{" ++ join (codes ", ") ks ++ more ++ codes "}"

abbrev pub list_of : Items → Text → Text
list_of vs inner = codes "list[" ++ decimal (count_items vs) ++ codes "] of " ++ inner

-- The description of a list by its first item; `nested` describes a head that is no object, one
-- level down.
abbrev pub inner_shape : (depth : ℕ) → Json → Items → (nested : Text) → Text
inner_shape depth (obj fs) vs nested = braced (take shape_keys (sampled_keys shape_sample [] vs)) []
inner_shape zero head vs nested = nested
inner_shape (suc depth) head vs nested = type_name head

unfoldable pub describe_shape : (depth : ℕ) → Json → Text
describe_shape depth (obj fs) =
    braced (take shape_keys (keys_of fs))
      (if leb (length (keys_of fs)) shape_keys then [] else codes ", …")
describe_shape depth (arr nil) = codes "list[0]"
describe_shape depth (arr (cons head vs)) =
    list_of (cons head vs) (inner_shape depth head (cons head vs) (describe_shape (suc depth) head))
describe_shape depth (bool b) = codes "bool"
describe_shape depth (str s) = codes "string[" ++ decimal (length s) ++ codes "]"
describe_shape depth (int n) = codes "int"
describe_shape depth (float r w) = codes "float"
describe_shape depth null = codes "null"

abbrev pub blank : Text → Text
blank [] = []
blank (c ∷ s) = 0 ∷ blank s

-- The same structure with every value wiped out: each truth value is false, each number 0, each
-- character the same.
unfoldable mutual
  pub erase : Json → Json
  erase null = null
  erase (bool b) = bool false
  erase (int n) = int (pos 0)
  erase (float r w) = float [] none
  erase (str s) = str (blank s)
  erase (arr vs) = arr (erase_items vs)
  erase (obj fs) = obj (erase_fields fs)

  pub erase_items : Items → Items
  erase_items nil = nil
  erase_items (cons v vs) = cons (erase v) (erase_items vs)

  pub erase_fields : Fields → Fields
  erase_fields end = end
  erase_fields (field k v fs) = field k (erase v) (erase_fields fs)

length-blank : (s : Text) → length (blank s) ≡ length s
length-blank [] = refl
length-blank (c ∷ s) = ap suc (length-blank s)

keys_of-erase : (fs : Fields) → keys_of (erase_fields fs) ≡ keys_of fs
unfolding erase
keys_of-erase end = refl
keys_of-erase (field k v fs) = ap (λ ks. k ∷ ks) (keys_of-erase fs)

count_items-erase : (vs : Items) → count_items (erase_items vs) ≡ count_items vs
unfolding erase
count_items-erase nil = refl
count_items-erase (cons v vs) = ap suc (count_items-erase vs)

sampled_keys-erase :
    (n : ℕ) (seen : List Text) (vs : Items)
    → sampled_keys n seen (erase_items vs) ≡ sampled_keys n seen vs
unfolding erase
sampled_keys-erase zero seen vs = refl
sampled_keys-erase (suc n) seen nil = refl
sampled_keys-erase (suc n) seen (cons null vs) = sampled_keys-erase n seen vs
sampled_keys-erase (suc n) seen (cons (bool b) vs) = sampled_keys-erase n seen vs
sampled_keys-erase (suc n) seen (cons (int k) vs) = sampled_keys-erase n seen vs
sampled_keys-erase (suc n) seen (cons (float r w) vs) = sampled_keys-erase n seen vs
sampled_keys-erase (suc n) seen (cons (str s) vs) = sampled_keys-erase n seen vs
sampled_keys-erase (suc n) seen (cons (arr ws) vs) = sampled_keys-erase n seen vs
sampled_keys-erase (suc n) seen (cons (obj fs) vs) =
    rw (keys_of-erase fs) (sampled_keys-erase n (add_keys seen (keys_of fs)) vs)

inner_shape-erase :
    (depth : ℕ) (head : Json) (vs : Items) (nested : Text)
    → inner_shape depth (erase head) (erase_items vs) nested ≡ inner_shape depth head vs nested
unfolding erase
inner_shape-erase depth (obj fs) vs nested = rw (sampled_keys-erase shape_sample [] vs) refl
inner_shape-erase zero null vs nested = refl
inner_shape-erase zero (bool b) vs nested = refl
inner_shape-erase zero (int n) vs nested = refl
inner_shape-erase zero (float r w) vs nested = refl
inner_shape-erase zero (str s) vs nested = refl
inner_shape-erase zero (arr ws) vs nested = refl
inner_shape-erase (suc d) null vs nested = refl
inner_shape-erase (suc d) (bool b) vs nested = refl
inner_shape-erase (suc d) (int n) vs nested = refl
inner_shape-erase (suc d) (float r w) vs nested = refl
inner_shape-erase (suc d) (str s) vs nested = refl
inner_shape-erase (suc d) (arr ws) vs nested = refl

-- A shape is a function of the structure alone: two values that differ only in their truth
-- values, their numbers and the characters of their texts have the same description.
pub describe_shape-erase :
    (depth : ℕ) (v : Json) → describe_shape depth (erase v) ≡ describe_shape depth v
unfolding describe_shape erase
describe_shape-erase depth null = refl
describe_shape-erase depth (bool b) = refl
describe_shape-erase depth (int n) = refl
describe_shape-erase depth (float r w) = refl
describe_shape-erase depth (str s) = rw (length-blank s) refl
describe_shape-erase depth (obj fs) = rw (keys_of-erase fs) refl
describe_shape-erase depth (arr nil) = refl
describe_shape-erase depth (arr (cons head vs)) =
    rw
      (
        describe_shape-erase (suc depth) head,
        inner_shape-erase depth head (cons head vs) (describe_shape (suc depth) head),
        count_items-erase (cons head vs),
      )
      refl
