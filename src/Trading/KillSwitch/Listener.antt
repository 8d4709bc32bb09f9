-- ===== src/Trading/KillSwitch/Listener.antt =====
-- What the listener hears, and when it stops hearing. (kill_switch_monitor.py, `_listen`)
use clartt_capital.Common.{
  ◌≡◌, ap, subst, refl, sym, ◌∙◌, Bool, true, false, ◌&&◌, none, some, List, [], ◌∷◌, map, String,
  str_eq, Bool-cases, inl, inr, arith,
}
use clartt_capital.Trading.KillSwitch.{
  Monitor, Input, message, asked, subscribed, stopped, undecodable, lost, Answer, is_active,
  subscribe, fire, differs, handle, deliver, step, run,
}

-- The monitor listens, is not told to stop, and has seen a change of state.
abbrev pub IsHearing : Monitor → Type 0
IsHearing m =
    (m.listening ≡ true)
    × (m.stop_event ≡ false)
    × (m.initialized ≡ true)
    × ((cbs : List String) × (m.bound ≡ some cbs))

-- The messages as inputs, each with whether its type is "message".
abbrev pub messages : List (Bool × String) → List Input
messages = map (λ k. message k.0 k.1)

-- The state that the last message of the kind "message" announces.
abbrev pub announced : List Input → Bool → Bool
announced [] last = last
announced (message true text ∷ is) last = announced is (str_eq text "active")
announced (_ ∷ is) last = announced is last

-- An input that neither stops the listener nor ends it by an exception.
abbrev pub keeps : Input → Bool
keeps stopped = false
keeps undecodable = false
keeps lost = false
keeps _ = true

abbrev pub all_keep : List Input → Bool
all_keep [] = true
all_keep (i ∷ is) = keeps i && all_keep is

differs-false : (a b : Bool) → differs a b ≡ false → a ≡ b
differs-false a b h = ground arith

differs-same : (a b : Bool) → a ≡ b → differs a b ≡ false
differs-same a b h = ground arith

deliver-IsHearing :
    (t : String) (m : Monitor)
    → IsHearing m
    → IsHearing (deliver true t m) × ((deliver true t m).active ≡ str_eq t "active")
unfolding deliver handle fire
deliver-IsHearing t m (l, s, i, (cbs, b)) =
    elim (Bool-cases (differs (str_eq t "active") m.active)) [
      | inl d ↦ rw (l, s, d) ((refl, refl, refl, (m.callbacks, refl)), refl)
      | inr d ↦ rw (l, s, d, b) ((refl, refl, i, (cbs, refl)), sym (differs-false _ _ d))
    ]

deliver-other : (t : String) (m : Monitor) → IsHearing m → deliver false t m ≡ m
unfolding deliver
deliver-other t m (l, s, _, _) = rw (l, s) refl

deliver-ended : (k : Bool) (t : String) (m : Monitor) → m.listening ≡ false → deliver k t m ≡ m
unfolding deliver
deliver-ended k t m l = rw l refl

-- A thread that has ended does nothing.
silent : (ms : List (Bool × String)) (m : Monitor) → m.listening ≡ false → run (messages ms) m ≡ m
unfolding run step
silent [] m l = refl
silent ((k, t) ∷ ms) m l = ap (run (messages ms)) (deliver-ended k t m l) ∙ silent ms m l

deliver-unbound :
    (t : String) (m : Monitor)
    → m.listening ≡ true
    → m.stop_event ≡ false
    → m.bound ≡ none
    → str_eq t "active" ≡ m.active
    → deliver true t m ≡ record m { listening = false }
unfolding deliver handle fire
deliver-unbound t m l s b e = rw (l, s, differs-same _ _ e, b) refl

asked-same : (answer : Answer) (m : Monitor) → m.initialized ≡ true → step (asked answer) m ≡ m
unfolding step is_active
asked-same answer m i = rw i refl

subscribed-IsHearing :
    (callback : String) (m : Monitor)
    → IsHearing m
    → IsHearing (step (subscribed callback) m) × ((step (subscribed callback) m).active ≡ m.active)
unfolding step subscribe
subscribed-IsHearing callback m (l, s, i, b) = rw l ((refl, s, i, b), refl)

-- A listener that has seen a change of state hears everything: after any messages, calls of
-- `is_active` and subscriptions, as long as it is neither stopped nor ended by a failing connection
-- or a message that cannot be decoded, it still listens, the monitor's cached state is the one that
-- the last message announced, and `is_active` answers with it, whatever the key in Redis holds.
pub hears_every_message :
    (is : List Input) (m : Monitor) (answer : Answer)
    → IsHearing m
    → all_keep is ≡ true
    → let m' = run is m in
      IsHearing m'
      × (m'.active ≡ announced is m.active)
      × ((is_active answer m').1 ≡ announced is m.active)
unfolding run step
hears_every_message [] m answer (l, s, i, b) k = ((l, s, i, b), refl, rw (i, is_active) refl)
hears_every_message (message true t ∷ is) m answer h k =
    let (h', e) = deliver-IsHearing t m h in
    let (h'', a, q) = hears_every_message is (deliver true t m) answer h' k in
    (h'', a ∙ ap (announced is) e, q ∙ ap (announced is) e)
hears_every_message (message false t ∷ is) m answer h k =
    let e = deliver-other t m h in
    let (h', a, q) =
      hears_every_message is (deliver false t m) answer (subst IsHearing (sym e) h) k in
    (h', a ∙ ap (λ x. announced is x.active) e, q ∙ ap (λ x. announced is x.active) e)
hears_every_message (asked reply ∷ is) m answer h k =
    let e = asked-same reply m h.2 in
    let (h', a, q) =
      hears_every_message is (step (asked reply) m) answer (subst IsHearing (sym e) h) k in
    (h', a ∙ ap (λ x. announced is x.active) e, q ∙ ap (λ x. announced is x.active) e)
hears_every_message (subscribed callback ∷ is) m answer h k =
    let (h', e) = subscribed-IsHearing callback m h in
    let (h'', a, q) = hears_every_message is (step (subscribed callback) m) answer h' k in
    (h'', a ∙ ap (announced is) e, q ∙ ap (announced is) e)
hears_every_message (stopped ∷ is) m answer h k = ground arith
hears_every_message (undecodable ∷ is) m answer h k = ground arith
hears_every_message (lost ∷ is) m answer h k = ground arith

-- A listener that has not seen a change yet dies of the first message that announces the state that
-- is cached already: from then on no message changes the cached state, so a kill switch that is
-- activated later goes unheard.
pub deaf_after_confirmation :
    (text : String) (m : Monitor) (ms : List (Bool × String))
    → m.listening ≡ true
    → m.stop_event ≡ false
    → m.bound ≡ none
    → str_eq text "active" ≡ m.active
    → let m' = run (message true text ∷ messages ms) m in
      (m'.listening ≡ false) × (m'.active ≡ m.active) × (m'.fired ≡ m.fired)
unfolding run step
deaf_after_confirmation text m ms l s b e =
    let e =
      ap (run (messages ms)) (deliver-unbound text m l s b e)
      ∙ silent ms (record m { listening = false }) refl in
    (ap (λ x. x.listening) e, ap (λ x. x.active) e, ap (λ x. x.fired) e)
