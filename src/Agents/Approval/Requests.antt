-- ===== src/Agents/Approval/Requests.antt =====
-- What Redis promises, and what that makes of a new request. (approval.py, `request_approval`)
use clartt_capital.Common.{
  ◌≡◌, refl, Bool, true, false, Option, none, some, List, [], ◌∷◌, String, str_eq, if◌then◌else◌,
  lookup,
}
use clartt_capital.Breaker.{returned, raised}
use clartt_capital.Agents.Autonomy.{AutonomyMode}
use clartt_capital.Agents.Approval.Methods.{create, auto_approve, ask, request_approval}
use clartt_capital.Agents.Approval.Records.{
  Hashes, World, Fresh, dump, new_request, granted_request,
}

abbrev pub has_none : List (String × Option String) → Bool
has_none [] = false
has_none ((_, none) ∷ m) = true
has_none ((_, some _) ∷ m) = has_none m

-- The text of a field among those to be written, or else the one that is there.
abbrev pub written : String → List (String × Option String) → Option String → Option String
written f [] old = old
written f ((k, v) ∷ m) old = if str_eq k f then v else written f m old

-- The documented behaviour of HSET, of the client's check of its arguments, and of SREM.
pub record IsLawful (R : Hashes) : Type 0 where
  pub refuses :
      (k : String) (m : List (String × Option String)) (d : R.Db)
      → has_none m ≡ true
      → R.hset k m d ≡ (d, raised "DataError")
  pub accepts :
      (k : String) (m : List (String × Option String)) (d : R.Db)
      → has_none m ≡ false
      → (R.hset k m d).1 ≡ returned tt
  pub stores :
      (k i f : String) (m : List (String × Option String)) (d : R.Db)
      → has_none m ≡ false
      → lookup f (R.hgetall i (R.hset k m d).0)
        ≡ (if str_eq k i then written f m (lookup f (R.hgetall i d)) else lookup f (R.hgetall i d))
  pub srem_keeps : (k i : String) (d : R.Db) → R.hgetall i (R.srem k d) ≡ R.hgetall i d

module _ (R : Hashes) (L : IsLawful R) where
  ask_refused :
      (f : Fresh) (agent task action : String) (m : Bool) (w : World R)
      → ask R f agent task action m w ≡ (w, raised "DataError")
  unfolding ask create dump
  ask_refused f agent task action m w =
      let e = L.refuses f.id (dump (new_request f agent task action)) w.db refl in
      rw (e, ask) (rw (e, create) refl)

  auto_approve_refused :
      (f : Fresh) (agent task action : String) (w : World R)
      → auto_approve R f agent task action w ≡ (w, raised "DataError")
  unfolding auto_approve create dump
  auto_approve_refused f agent task action w =
      let e = L.refuses f.id (dump (granted_request f agent task action)) w.db refl in
      rw (e, auto_approve) (rw (e, create) refl)

  -- In every mode a request for an approval is refused by the client of Redis, since the new request
  -- has entries that are None: nothing is stored, nothing is published and the agent does not wait.
  pub request_approval_refused :
      (mode : Option AutonomyMode) (f : Fresh) (agent task action : String) (has_machine : Bool)
      (w : World R)
      → request_approval R mode f agent task action has_machine w ≡ (w, raised "DataError")
  unfolding request_approval
  request_approval_refused (some AutonomyMode.full_autonomy) f agent task action m w =
      auto_approve_refused f agent task action w
  request_approval_refused (some AutonomyMode.approval) f agent task action m w =
      ask_refused f agent task action m w
  request_approval_refused none f agent task action m w = ask_refused f agent task action m w
