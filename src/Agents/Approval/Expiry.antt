-- ===== src/Agents/Approval/Expiry.antt =====
-- `check_expiry` and `list_pending` of approval.py. Times are microseconds; `parse_time` is
-- `datetime.fromisoformat`, a time without a zone being taken for UTC, and the registry says which
-- agents it has.
use clartt_capital.Common.{
  ℕ, ◌-◌, Bool, true, false, Option, none, some, List, [], ◌∷◌, String, ◌<>◌, leb, if◌then◌else◌,
}
use clartt_capital.Floats.{Floats}
use clartt_capital.Breaker.{Outcome, returned, raised}
use clartt_capital.Agents.Models.{AgentState, ApprovalRequest, ApprovalStatus}
use clartt_capital.Agents.Approval.Methods.{load_request, save_request, unindex, move, note}
use clartt_capital.Agents.Approval.Records.{Hashes, World, Fresh, event, activity, is_pending}

-- What a call reads besides: the clock, as a number, and the texts that it makes of numbers.
pub record Expiry (N : Floats) : Type 0 where
  pub timeout_hours : N.F
  pub parse_time : String → Option ℕ
  pub now : ℕ
  pub registered : Option (String → Bool)

unfoldable pub elapsed_hours : (N : Floats) → (created now : ℕ) → N.F
elapsed_hours N created now =
    let hours = λ (us : ℕ). N.div (N.div (N.lit us) (N.lit 1000000)) (N.lit 3600) in
    if leb created now then hours (now - created) else N.sub (N.lit 0) (hours (created - now))

module _ {N : Floats} where
  unfoldable pub has_agent : Expiry N → String → Bool
  has_agent x agent = elim x.registered [ none ↦ false | some known ↦ known agent ]

  abbrev pub expired_request : Expiry N → Fresh → ApprovalRequest → ApprovalRequest
  expired_request x f r = record r {
    status = ApprovalStatus.expired;
    resolved_at = some f.now;
    resolution_reason = some ("Expired after " <> (N.show x.timeout_hours <> "h with no response"));
  }

module _ {N : Floats} (R : Hashes) (x : Expiry N) where
  -- A request that is past its time.
  unfoldable pub expire :
      Fresh → (approval_id : String) → ApprovalRequest → World R → World R × Outcome Bool
  unfolding has_agent
  expire f id r w =
      let (w', out) = save_request R r w in
      elim out [
        | raised e ↦ (w', raised e)
        | returned _ ↦ (
          note R (activity "ApprovalExpired" r) (
              note R (event "Agent:ApprovalExpired" r) (
                move R (has_agent x r.agent_name) AgentState.idle
                  ("approval " <> (id <> " expired")) (unindex R id w'))),
          returned true,
        )
      ]

  -- The body of the loop: whether the request expired.
  unfoldable pub check_one : Fresh → (approval_id : String) → World R → World R × Outcome Bool
  unfolding elapsed_hours expire
  check_one f id w = elim (load_request R f id w.db) [
    | raised e ↦ (w, raised e)
    | returned none ↦ (unindex R id w, returned false)
    | returned (some r) ↦
        if is_pending r.status
        then elim (x.parse_time r.created_at) [
          | none ↦ (w, raised "ValueError")
          | some created ↦
              if N.le x.timeout_hours (elapsed_hours N created x.now)
              then expire f id (expired_request x f r) w
              else (w, returned false)
        ]
        else (unindex R id w, returned false)
  ]

  unfoldable pub check_each : Fresh → List String → World R → World R × Outcome (List String)
  unfolding check_one
  check_each f [] w = (w, returned [])
  check_each f (id ∷ ids) w =
      let (w', out) = check_one f id w in
      let (w'', rest) = check_each f ids w' in
      elim out [
        | raised e ↦ (w', raised e)
        | returned gone ↦ (
          w'',
          elim rest [ raised e ↦ raised e | returned l ↦ returned (if gone then id ∷ l else l) ],
        )
      ]

  unfoldable pub check_expiry : Fresh → World R → World R × Outcome (List String)
  unfolding check_each
  check_expiry f w = check_each f (R.smembers w.db) w

module _ (R : Hashes) where
  unfoldable pub pending_among : Fresh → List String → R.Db → Outcome (List ApprovalRequest)
  pending_among f [] db = returned []
  pending_among f (id ∷ ids) db =
      let rest = pending_among f ids db in
      elim (load_request R f id db) [
        | raised e ↦ raised e
        | returned none ↦ rest
        | returned (some r) ↦
            if is_pending r.status
            then elim rest [ raised e ↦ raised e | returned l ↦ returned (r ∷ l) ]
            else rest
      ]

  unfoldable pub list_pending : Fresh → World R → Outcome (List ApprovalRequest)
  unfolding pending_among
  list_pending f w = pending_among f (R.smembers w.db) w.db
