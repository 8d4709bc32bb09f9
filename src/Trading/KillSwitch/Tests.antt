-- ===== src/Trading/KillSwitch/Tests.antt =====
-- Runs of the monitor, and the theorems at inputs that meet their hypotheses.
use clartt_capital.Common.{List, Bool, String, ◌≡◌, refl, true, false, some, none, [], ◌∷◌}
use clartt_capital.Trading.KillSwitch.{
  Monitor, Input, message, asked, subscribed, lost, end_listener, value, init, run, step, deliver,
  handle, fire, subscribe, is_active,
}
use clartt_capital.Trading.KillSwitch.Listener.{
  messages, IsHearing, hears_every_message, deaf_after_confirmation,
}

abbrev monitor : Monitor
monitor = record {
  active = false;
  callbacks = "halt" ∷ [];
  initialized = true;
  stop_event = false;
  listening = true;
  bound = none;
  fired = [];
}

abbrev switched : Monitor
switched = record monitor { active = true; bound = some ("halt" ∷ []) }

-- Activated and deactivated on a fresh monitor, the callback hears of both.
heard :
    (run
      (subscribed "halt" ∷ message false "1" ∷ message true "active" ∷ message true "inactive" ∷ [])
      init).fired
    ≡ ("halt", true) ∷ ("halt", false) ∷ []
unfolding run step deliver handle fire subscribe init
heard = refl

-- Told again what it knows, it misses the activation that follows.
missed :
    (run (subscribed "halt" ∷ message true "inactive" ∷ message true "active" ∷ []) init).active
    ≡ false
unfolding run step deliver handle fire subscribe init
missed = refl

abbrev news : List Input
news =
    message true "inactive"
    ∷ subscribed "report"
    ∷ message false "1"
    ∷ message true "active"
    ∷ asked (value none)
    ∷ []

-- Cut off, it misses an activation.
cut_off : (run (subscribed "halt" ∷ lost ∷ message true "active" ∷ []) init).active ≡ false
unfolding run step deliver handle fire subscribe end_listener init
cut_off = refl

abbrev activation : List (Bool × String)
activation = (true, "active") ∷ []

hears_every_message_example :
    let m' = run news switched in
    IsHearing m' × (m'.active ≡ true) × ((is_active (value none) m').1 ≡ true)
hears_every_message_example =
    hears_every_message news switched (value none) (refl, refl, refl, ("halt" ∷ [], refl)) refl

deaf_after_confirmation_example :
    let m' = run (message true "inactive" ∷ messages activation) monitor in
    (m'.listening ≡ false) × (m'.active ≡ false) × (m'.fired ≡ [])
deaf_after_confirmation_example =
    deaf_after_confirmation "inactive" monitor activation refl refl refl refl
