-- ===== src/Trading/Autopilot/Hearing.antt =====
-- What the monitor takes for the state of an account while it listens. (autopilot_monitor.py)
use clartt_capital.Common.{
  ◌≡◌, refl, ap, ◌∙◌, Bool, true, false, ◌&&◌, Option, none, some, List, [], ◌∷◌, String, lookup,
  Option-cases, inl, inr, arith, if◌then◌else◌,
}
use clartt_capital.Trading.Autopilot.{
  Answer, Payload, invalid, fields, Monitor, Input, message, asked, subscribed, stopped, lost,
  is_enabled_value, load_state, is_enabled, subscribe, announce, handle, deliver, step, run,
}
use clartt_capital.Trading.Autopilot.Consent.{revise, revised, handle_states, asked_states}

-- An input that does not end the listener.
abbrev pub keeps_listening : Input → Bool
keeps_listening stopped = false
keeps_listening lost = false
keeps_listening _ = true

abbrev pub all_keep : List Input → Bool
all_keep [] = true
all_keep (i ∷ is) = keeps_listening i && all_keep is

-- What a thread of the listener goes by.
abbrev attention : Monitor → Bool × Bool
attention m = (m.listening, m.stop_event)

attention-handle : (p : Payload) (m : Monitor) → attention (handle p m) ≡ attention m
unfolding handle announce
attention-handle invalid m = refl
attention-handle (fields none e) m = refl
attention-handle (fields (some j) none) m = ground arith
attention-handle (fields (some j) (some e)) m = ground arith

attention-is_enabled :
    (a : Answer) (j : String) (m : Monitor) → attention (is_enabled a j m).0 ≡ attention m
unfolding is_enabled load_state
attention-is_enabled a j m = ground arith

deliver_heard :
    (p : Payload) (m : Monitor) → attention m ≡ (true, false) → deliver true p m ≡ handle p m
unfolding deliver
deliver_heard p m h =
    ap
      (λ (a : Bool × Bool).
        if a.0 then (if a.1 then record m { listening = false } else handle p m) else m)
      h

step_hears :
    (i : Input) (id : String) (m : Monitor)
    → attention m ≡ (true, false)
    → keeps_listening i ≡ true
    → (attention (step i m) ≡ (true, false))
      × (lookup id (step i m).states ≡ revise id i (lookup id m.states))
unfolding step deliver subscribe revise
step_hears (message true p) id m h k = (
  ap attention (deliver_heard p m h) ∙ attention-handle p m ∙ h,
  ap (λ x. lookup id x.states) (deliver_heard p m h) ∙ handle_states p id m,
)
step_hears (message false p) id m h k = rw (ap (λ x. x.0) h, ap (λ x. x.1) h) (refl, refl)
step_hears (asked a j) id m h k = (attention-is_enabled a j m ∙ h, asked_states a j id m)
step_hears (subscribed c) id m h k = rw (ap (λ x. x.0) h, ap (λ x. x.1) h) (refl, refl)
step_hears stopped id m h k = ground arith
step_hears lost id m h k = ground arith

run_hears :
    (is : List Input) (id : String) (m : Monitor)
    → attention m ≡ (true, false)
    → all_keep is ≡ true
    → lookup id (run is m).states ≡ revised id is (lookup id m.states)
unfolding run
run_hears [] id m h k = refl
run_hears (i ∷ is) id m h k =
    let (a, e) = step_hears i id m h (ground arith) in
    run_hears is id (step i m) a (ground arith) ∙ ap (revised id is) e

abbrev pub or_else : Bool → Option Bool → Bool
or_else b none = b
or_else b (some c) = c

is_enabled_lem :
    (answer : Answer) (id : String) (m : Monitor)
    → (is_enabled answer id m).1 ≡ or_else (is_enabled_value answer) (lookup id m.states)
unfolding is_enabled load_state
is_enabled_lem answer id m = elim (Option-cases (lookup id m.states)) [
  | inl n ↦ rw (n, is_enabled) refl
  | inr (b, n) ↦ rw (n, is_enabled) refl
]

-- While the listener of a monitor is neither stopped nor cut off, the monitor is one cell for each
-- account: after any inputs, `is_enabled` answers for an account what its last message said, or, if
-- there was none, what it answered first.
pub hears_every_account :
    (is : List Input) (answer : Answer) (id : String) (m : Monitor)
    → m.listening ≡ true
    → m.stop_event ≡ false
    → all_keep is ≡ true
    → let cell = revised id is (lookup id m.states) in
      let m' = run is m in
      (lookup id m'.states ≡ cell)
      × ((is_enabled answer id m').1 ≡ or_else (is_enabled_value answer) cell)
hears_every_account is answer id m l s k =
    let e = run_hears is id m (ground arith) k in
    (e, is_enabled_lem answer id (run is m) ∙ ap (or_else (is_enabled_value answer)) e)
