-- ===== src/Sessions/Examples.antt =====
-- The theorems about the store of sessions at concrete histories, and tests.
use agentic_bus.Common.{List, [], ◌∷◌, ◌≡◌, refl, codes, ◌==◌, lookup, insert, remove}
use agentic_bus.Sessions.{execution, Sessions, create, transition, dissolve, session_count}
use agentic_bus.Sessions.Lifecycle.{Call, creates, moves, dissolves, call, call_all}

abbrev history : List Call
history =
    creates (codes "s1") (codes "alice") []
    ∷ creates (codes "s2") (codes "bob") []
    ∷ moves (codes "s1") execution refl
    ∷ dissolves (codes "now") (codes "s2")
    ∷ []

one_left : session_count (call_all [] history) ≡ 1
unfolding call_all call create transition dissolve session_count lookup insert remove ◌==◌
one_left = refl

abbrev store : Sessions
store = call_all [] (creates (codes "s1") (codes "alice") [] ∷ [])
