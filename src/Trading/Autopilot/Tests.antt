-- ===== src/Trading/Autopilot/Tests.antt =====
-- Runs of the monitor.
use clartt_capital.Common.{◌≡◌, refl, Bool, true, false, List, [], ◌∷◌, String, none, some, lookup}
use clartt_capital.Trading.Autopilot.{
  value, failed, fields, Input, message, asked, subscribed, stopped, init, is_enabled_value,
  is_enabled, subscribe, step, run,
}
use clartt_capital.Trading.Autopilot.Consent.{revised}
use clartt_capital.Trading.Autopilot.Hearing.{or_else, hears_every_account}

abbrev switch : String → Bool → Input
switch id b = message true (fields (some id) (some b))

-- One account is switched on and off, another is read from Redis and stays on.
abbrev day : List Input
day =
    asked (value (some "enabled")) "b" ∷ switch "a" true ∷ asked failed "b" ∷ switch "a" false ∷ []

stays : (is_enabled failed "b" (run day init)).1 ≡ true
unfolding is_enabled run init step
stays = refl

hears_every_account_example :
    let m = subscribe "log" init in
    let cell = revised "a" day (lookup "a" m.states) in
    let m' = run day m in
    (lookup "a" m'.states ≡ cell)
    × ((is_enabled failed "a" m').1 ≡ or_else (is_enabled_value failed) cell)
unfolding subscribe init
hears_every_account_example =
    hears_every_account day failed "a" (subscribe "log" init) refl refl refl

-- A callback that is added after a stop, while the old listener still waits, hears nothing more.
abbrev late : List Input
late = subscribed "log" ∷ stopped ∷ subscribed "bell" ∷ switch "a" true ∷ switch "a" true ∷ []

unheard : lookup "a" (run late init).states ≡ none
unfolding run init step
unheard = refl
