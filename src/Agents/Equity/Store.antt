-- ===== src/Agents/Equity/Store.antt =====
-- How the stored peak and the stored pause react to each write. (equity_monitor.py, the helpers)
use clartt_capital.Common.{
  ◌≡◌, ◌⊎◌, inl, inr, refl, true, false, String, Bool-cases, eq_refl, str_eq-apart, str_eq, arith,
}
use clartt_capital.Floats.{Floats, IsLawful}
use clartt_capital.Redis.Values.{RedisValues}
use clartt_capital.Redis.Values
use clartt_capital.Agents.Equity.{
  World, raised, hwm_key, pause_key, get_hwm, set_hwm, is_paused, activate_pause, deactivate_pause,
  remember,
}

hwm_key-pause_key : (a b : String) → str_eq (hwm_key a) (pause_key b) ≡ false
hwm_key-pause_key a b =
    str_eq-apart 7 "equity:hwm:" "equity:paused:" a b (ground arith) (ground arith) (ground arith)

pause_key-hwm_key : (a b : String) → str_eq (pause_key a) (hwm_key b) ≡ false
pause_key-hwm_key a b =
    str_eq-apart 7 "equity:paused:" "equity:hwm:" a b (ground arith) (ground arith) (ground arith)

module _ {R : RedisValues} (LR : Values.IsLawful R) {N : Floats} (L : IsLawful N) where
  pub hwm-set_hwm :
      (id : String) (x : N.F) (w : World R N) → N.le x x ≡ true → get_hwm id (set_hwm id x w) ≡ x
  unfolding get_hwm set_hwm
  hwm-set_hwm id x w h =
      rw
        (
          LR.get-set (hwm_key id) (hwm_key id) (N.show x) w.db,
          eq_refl (hwm_key id),
          L.parse-show x h,
        )
        refl

  pub paused-set_hwm :
      (id : String) (x : N.F) (w : World R N) → is_paused id (set_hwm id x w) ≡ is_paused id w
  unfolding is_paused set_hwm
  paused-set_hwm id x w =
      rw (LR.get-set (pause_key id) (hwm_key id) (N.show x) w.db, hwm_key-pause_key id id) refl

  pub hwm-activate :
      (id : String) (h e p : N.F) (w : World R N)
      → get_hwm id (activate_pause id h e p w) ≡ get_hwm id w
  unfolding get_hwm activate_pause
  hwm-activate id h e p w =
      rw (LR.get-set (hwm_key id) (pause_key id) "paused" w.db, pause_key-hwm_key id id) refl

  pub hwm-deactivate :
      (id : String) (h e p : N.F) (w : World R N)
      → get_hwm id (deactivate_pause id h e p w) ≡ get_hwm id w
  unfolding get_hwm deactivate_pause
  hwm-deactivate id h e p w =
      rw (LR.get-delete (hwm_key id) (pause_key id) w.db, pause_key-hwm_key id id) refl

  pub paused-activate :
      (id : String) (h e p : N.F) (w : World R N) → is_paused id (activate_pause id h e p w) ≡ true
  unfolding is_paused activate_pause
  paused-activate id h e p w =
      rw (LR.get-set (pause_key id) (pause_key id) "paused" w.db, eq_refl (pause_key id)) refl

  pub paused-deactivate :
      (id : String) (h e p : N.F) (w : World R N)
      → is_paused id (deactivate_pause id h e p w) ≡ false
  unfolding is_paused deactivate_pause
  paused-deactivate id h e p w =
      rw (LR.get-delete (pause_key id) (pause_key id) w.db, eq_refl (pause_key id)) refl

  pub hwm-remember :
      (id : String) (x : N.F) (w : World R N)
      → get_hwm id (remember id x w) ≡ raised N (get_hwm id w) x
  unfolding remember raised
  hwm-remember id x w = elim (Bool-cases (N.lt (get_hwm id w) x)) [
    | inl h ↦ rw h (hwm-set_hwm id x w (L.le_refl_of_lt _ _ h))
    | inr h ↦ rw h refl
  ]

  pub paused-remember :
      (id : String) (x : N.F) (w : World R N) → is_paused id (remember id x w) ≡ is_paused id w
  unfolding remember
  paused-remember id x w = elim (Bool-cases (N.lt (get_hwm id w) x)) [
    | inl h ↦ rw h (paused-set_hwm id x w)
    | inr h ↦ rw h refl
  ]

  pub published-remember :
      (id : String) (x : N.F) (w : World R N) → (remember id x w).published ≡ w.published
  unfolding remember set_hwm
  published-remember id x w = elim (Bool-cases (N.lt (get_hwm id w) x)) [
    | inl h ↦ rw h refl
    | inr h ↦ rw h refl
  ]

  pub raised_grows : (a b : N.F) → (raised N a b ≡ a) ⊎ (N.lt a (raised N a b) ≡ true)
  unfolding raised
  raised_grows a b = elim (Bool-cases (N.lt a b)) [
    | inl h ↦ inr (rw (h, h) refl)
    | inr h ↦ inl (rw h refl)
  ]

  pub raised_settles : (a b : N.F) → raised N (raised N a b) b ≡ raised N a b
  unfolding raised
  raised_settles a b = elim (Bool-cases (N.lt a b)) [
    | inl h ↦ rw (h, L.lt_irrefl b) refl
    | inr h ↦ rw (h, h) refl
  ]
