-- ===== src/Inputs/Parsing.antt =====
-- `_parse` of agentic_bus/core/step_inputs.py, which is also the reading of
-- `_parse_json_object` in agentic_bus/coordinator/negotiation/engine.py.
use agentic_bus.Common.{
  ℕ, zero, suc, ◌-◌, [], ◌∷◌, Option, none, some, if◌then◌else◌, Text, codes, starts_with, strip,
  nat_eq, ltb, Json, obj, Fields,
}
use agentic_bus.Inputs.Shapes.{take}

-- The result of something that may raise any exception, with its text.
pub data Answer (A : Type 0) : Type 0 where
  answered : A → Answer A
  failed : (why : Text) → Answer A

-- `response.content`: a dictionary, or anything else by the text that `str` makes of it.
pub data ModelReply : Type 0 where
  decoded : Fields → ModelReply
  plain : Text → ModelReply

abbrev pub fence : Text
fence = codes "```"

abbrev pub drop : ℕ → Text → Text
drop zero s = s
drop (suc n) [] = []
drop (suc n) (c ∷ s) = drop n s

-- What stands before the first occurrence, or the whole text: text.split(mark)[0].
abbrev pub before : (mark : Text) → Text → Text
before mark [] = []
before mark (c ∷ s) = let rest = before mark s in if starts_with mark (c ∷ s) then [] else c ∷ rest

-- text.removeprefix(prefix)
abbrev pub remove_prefix : Text → Text → Text
remove_prefix prefix s = if starts_with prefix s then drop (count prefix) s else s
  where
    count : Text → ℕ
    count [] = 0
    count (c ∷ t) = suc (count t)

-- text.find(char); none is -1
abbrev pub find : ℕ → Text → Option ℕ
find char [] = none
find char (c ∷ s) =
    if nat_eq c char then some 0 else elim (find char s) [ none ↦ none | some i ↦ some (suc i) ]

-- text.rfind(char)
abbrev pub rfind : ℕ → Text → Option ℕ
rfind char [] = none
rfind char (c ∷ s) = elim (rfind char s) [
  | none ↦ if nat_eq c char then some 0 else none
  | some i ↦ some (suc i)
]

abbrev pub open_brace : ℕ
open_brace = 123

abbrev pub close_brace : ℕ
close_brace = 125

-- The text inside a fence: the text begins with the fence, so that the second piece of its split
-- stands before the next fence.
unfoldable pub unfenced : Text → Text
unfenced s =
    if starts_with fence s
    then strip (remove_prefix (codes "json") (before fence (drop 3 s)))
    else s

-- text[start : end + 1], where both braces stand in the text in this order
unfoldable pub braces : Text → Text
braces s = elim (find open_brace s) [
  | none ↦ s
  | some start ↦ elim (rfind close_brace s) [
    | none ↦ s
    | some stop ↦ if ltb start stop then take (suc stop - start) (drop start s) else s
  ]
]

-- `loads` is `json.loads`.
unfoldable pub parse : (loads : Text → Answer Json) → ModelReply → Answer Json
unfolding unfenced braces
parse loads (decoded fs) = answered (obj fs)
parse loads (plain s) = loads (braces (unfenced (strip s)))
