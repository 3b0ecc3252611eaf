-- ===== src/Sessions/Lifecycle.antt =====
-- Dissolution, and the sessions of a `SessionManager` over a history of calls.
use agentic_bus.Common.{
  List, [], ◌∷◌, false, ◌≡◌, inl, inr, refl, ap, Option, none, some, if◌then◌else◌, Bool-cases,
  Option-cases, Text, ◌==◌, lookup, insert, remove, values, lookup-remove,
}
use agentic_bus.Sessions.{
  SessionPhase, is_dissolved, SessionState, Sessions, create, new_session, get_session, transition,
  end_session, dissolve, active_sessions,
}

-- Dissolution hands back the last state of the session, marked as dissolved, and forgets it: the
-- store no longer has it, and every other session is as it was. A session that the store does not
-- have gives none.
pub dissolve_effect :
    (now a b : Text) (s : Sessions)
    → ((dissolve now a s).0
        ≡ elim (get_session a s) [ none ↦ none | some x ↦ some (end_session now x) ])
      × (get_session b (dissolve now a s).1 ≡ (if a == b then none else get_session b s))
unfolding dissolve get_session
dissolve_effect now a b s = elim (Option-cases (lookup a s)) [
  | inl absent ↦ rw (absent, dissolve) (refl, lookup-remove a b s)
  | inr (x, found) ↦ rw (found, dissolve) (refl, lookup-remove a b s)
]

abbrev AllActive : Sessions → Type 0
AllActive [] = Unit {0}
AllActive ((k, x) ∷ s) = (is_dissolved x.phase ≡ false) × AllActive s

insert-AllActive :
    (k : Text) (x : SessionState) (s : Sessions)
    → is_dissolved x.phase ≡ false
    → AllActive s
    → AllActive (insert k x s)
unfolding insert
insert-AllActive k x [] e h = (e, tt)
insert-AllActive k x ((j, y) ∷ s) e (f, h) = elim (Bool-cases (j == k)) [
  | inl same ↦ rw same (e, h)
  | inr other ↦ rw other (f, insert-AllActive k x s e h)
]

remove-AllActive : (k : Text) (s : Sessions) → AllActive s → AllActive (remove k s)
unfolding remove
remove-AllActive k [] h = tt
remove-AllActive k ((j, y) ∷ s) (f, h) = elim (Bool-cases (j == k)) [
  | inl same ↦ rw same (remove-AllActive k s h)
  | inr other ↦ rw other (f, remove-AllActive k s h)
]

-- The calls of the store. A transition to `dissolved` is none of them: that is what `dissolve` is for.
pub data Call : Type 0 where
  creates : (fresh_id requester_id oidc_subject : Text) → Call
  moves : (session_id : Text) (phase : SessionPhase) → is_dissolved phase ≡ false → Call
  dissolves : (now session_id : Text) → Call

abbrev or_same : Option Sessions → Sessions → Sessions
or_same none s = s
or_same (some t) s = t

-- A call that raises leaves the store as it is.
unfoldable pub call : Sessions → Call → Sessions
call s (creates fresh_id requester_id oidc_subject) =
    (create fresh_id requester_id oidc_subject s).1
call s (moves session_id phase _) = or_same (transition session_id phase s) s
call s (dissolves now session_id) = (dissolve now session_id s).1

unfoldable pub call_all : Sessions → List Call → Sessions
unfolding call
call_all s [] = s
call_all s (c ∷ cs) = call_all (call s c) cs

dissolve-remove : (now a : Text) (s : Sessions) → (dissolve now a s).1 ≡ remove a s
unfolding dissolve
dissolve-remove now a s = elim (Option-cases (lookup a s)) [
  | inl absent ↦ rw (absent, dissolve) refl
  | inr (x, found) ↦ rw (found, dissolve) refl
]

call-AllActive : (s : Sessions) (c : Call) → AllActive s → AllActive (call s c)
unfolding call create transition
call-AllActive s (creates i r o) h = insert-AllActive i (new_session i r o) s refl h
call-AllActive s (moves i phase e) h = elim (Option-cases (lookup i s)) [
  | inl absent ↦ rw (absent, transition) h
  | inr (x, found) ↦ rw (found, transition) (insert-AllActive i (record x { phase = phase }) s e h)
]
call-AllActive s (dissolves now i) h = rw (dissolve-remove now i s) (remove-AllActive i s h)

call_all-AllActive : (s : Sessions) (cs : List Call) → AllActive s → AllActive (call_all s cs)
unfolding call_all
call_all-AllActive s [] h = h
call_all-AllActive s (c ∷ cs) h = call_all-AllActive (call s c) cs (call-AllActive s c h)

active_of : (s : Sessions) → AllActive s → active_sessions s ≡ values s
unfolding active_sessions values
active_of [] h = refl
active_of ((k, x) ∷ s) (e, h) = rw e (ap (λ t. x ∷ t) (active_of s h))

-- After any history of creations, transitions to a phase other than `dissolved` and dissolutions,
-- from the empty store, every session that the store holds is active.
pub active_sessions_all :
    (cs : List Call) → active_sessions (call_all [] cs) ≡ values (call_all [] cs)
active_sessions_all cs = active_of (call_all [] cs) (call_all-AllActive [] cs tt)
