-- ===== src/Trading/Autopilot/Consent.antt =====
-- Who has said that the autopilot of an account is on. (autopilot_monitor.py)
use clartt_capital.Common.{
  ◌≡◌, ◌⊎◌, refl, Bool, true, false, ◌&&◌, ◌||◌, Option, none, some, List, [], ◌∷◌, ◌++◌, String,
  str_eq, eq_iff, lookup, lookup-put, Option-cases, inl, inr, arith, if◌then◌else◌,
}
use clartt_capital.Trading.Autopilot.{
  Answer, Payload, invalid, fields, Monitor, Input, message, asked, subscribed, stopped, lost, init,
  is_enabled_value, load_state, is_enabled, subscribe, stop, announce, handle, deliver, step, run,
}

-- Whether the input says that the autopilot of the account is on.
unfoldable pub consents : String → Input → Bool
consents id (message true (fields (some j) (some enabled))) = str_eq j id && enabled
consents id (asked answer j) = str_eq j id && is_enabled_value answer
consents id _ = false

abbrev pub any_consents : String → List Input → Bool
any_consents id [] = false
any_consents id (i ∷ is) = consents id i || any_consents id is

-- What an input leaves of the state of an account, for a listener that hears it: a message replaces
-- it, and the answer of Redis counts only for an account that has none.
unfoldable pub revise : String → Input → Option Bool → Option Bool
revise id (message true (fields (some j) enabled)) s =
    let b : Bool = elim enabled [ none ↦ false | some b ↦ b ] in
    if str_eq j "" then s else if str_eq j id then some b else s
revise id (asked answer j) s =
    let b : Option Bool = elim s [ none ↦ some (is_enabled_value answer) | some b ↦ some b ] in
    if str_eq j id then b else s
revise id _ s = s

abbrev pub revised : String → List Input → Option Bool → Option Bool
revised id [] s = s
revised id (i ∷ is) s = revised id is (revise id i s)

announce_states :
    (j id : String) (b : Bool) (m : Monitor)
    → lookup id (announce j b m).states ≡ (if str_eq j id then some b else lookup id m.states)
unfolding announce
announce_states j id b m = ground (arith, lookup-put j id b m.states)

pub handle_states :
    (p : Payload) (id : String) (m : Monitor)
    → lookup id (handle p m).states ≡ revise id (message true p) (lookup id m.states)
unfolding handle revise
handle_states invalid id m = refl
handle_states (fields none e) id m = refl
handle_states (fields (some j) none) id m = ground (arith, announce_states j id false m)
handle_states (fields (some j) (some e)) id m = ground (arith, announce_states j id e m)

pub asked_states :
    (a : Answer) (j id : String) (m : Monitor)
    → lookup id (is_enabled a j m).0.states ≡ revise id (asked a j) (lookup id m.states)
unfolding is_enabled load_state revise
asked_states a j id m = elim (Option-cases (lookup j m.states)) [
  | inl e ↦
      rw (e, is_enabled)
        (ground (arith, lookup-put j id (is_enabled_value a) m.states, eq_iff j id))
  | inr (b, e) ↦ rw (e, is_enabled) (ground (arith, eq_iff j id))
]

-- The state after a step is the one before it, or the one that the input leaves.
step_states :
    (i : Input) (id : String) (m : Monitor)
    → (lookup id (step i m).states ≡ lookup id m.states)
      ⊎ (lookup id (step i m).states ≡ revise id i (lookup id m.states))
unfolding step deliver subscribe stop
step_states (message true p) id m = ground (arith, handle_states p id m)
step_states (message false p) id m = ground arith
step_states (asked a j) id m = inr (asked_states a j id m)
step_states (subscribed c) id m = ground arith
step_states stopped id m = inl refl
step_states lost id m = inl refl

revise-consents :
    (i : Input) (id : String) (s : Option Bool)
    → revise id i s ≡ some true
    → (consents id i ≡ true) ⊎ (s ≡ some true)
unfolding revise consents
revise-consents (message true invalid) id s h = ground arith
revise-consents (message true (fields none e)) id s h = ground arith
revise-consents (message true (fields (some j) none)) id s h = ground arith
revise-consents (message true (fields (some j) (some e))) id s h = ground arith
revise-consents (message false p) id s h = ground arith
revise-consents (asked a j) id s h = ground arith
revise-consents (subscribed c) id s h = ground arith
revise-consents stopped id s h = ground arith
revise-consents lost id s h = ground arith

run_consents :
    (is : List Input) (id : String) (m : Monitor)
    → lookup id (run is m).states ≡ some true
    → (any_consents id is ≡ true) ⊎ (lookup id m.states ≡ some true)
unfolding run
run_consents [] id m h = inr h
run_consents (i ∷ is) id m h = ground (
  arith,
  run_consents is id (step i m) h,
  step_states i id m,
  revise-consents i id (lookup id m.states),
)

any_consents-snoc :
    (is : List Input) (i : Input) (id : String)
    → any_consents id (is ++ (i ∷ [])) ≡ (any_consents id is || consents id i)
any_consents-snoc [] i id = ground arith
any_consents-snoc (j ∷ is) i id = ground (arith, any_consents-snoc is i id)

-- Whatever the monitor has been through, it answers that the autopilot of an account is on only if a
-- message about that account, or an answer of Redis to a question about it, this one included, has
-- said so.
pub enabled_has_consent :
    (is : List Input) (answer : Answer) (id : String)
    → (is_enabled answer id (run is init)).1 ≡ true
    → any_consents id (is ++ (asked answer id ∷ [])) ≡ true
unfolding is_enabled load_state init consents
enabled_has_consent is answer id h = ground (
  arith,
  any_consents-snoc is (asked answer id) id,
  run_consents is id init,
  eq_iff id id,
  Option-cases (lookup id (run is init).states),
)
