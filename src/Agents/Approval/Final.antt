-- ===== src/Agents/Approval/Final.antt =====
-- A request is resolved once. (approval.py, `approve` and `deny`)
use clartt_capital.Common.{
  ◌≡◌, refl, sym, ap, ◌∙◌, subst, Bool, true, false, Option, none, some, List, [], ◌∷◌, String,
  ◌<>◌, eq_refl, if◌then◌else◌, lookup, arith,
}
use clartt_capital.Breaker.{Outcome, returned, raised}
use clartt_capital.Agents.Models.{AgentState, ApprovalRequest, ApprovalStatus}
use clartt_capital.Agents.Approval.Methods.{
  note, load_request, save_request, unindex, move, settle_request, when_pending, grant, refuse,
  approve, deny,
}
use clartt_capital.Agents.Approval.Records.{
  Hashes, World, Fresh, status_text, status_of, is_pending, dump, clean, validate, parsed,
  approved_request, denied_request,
}
use clartt_capital.Agents.Approval.Requests.{has_none, written, IsLawful}

-- A hash that holds a request of that status.
abbrev pub Holds : ApprovalStatus → List (String × String) → Type 0
Holds status h =
    ((agent : String) × (lookup "agent_name" h ≡ some agent))
    × ((task : String) × (lookup "task_id" h ≡ some task))
    × ((action : String) × (lookup "action_description" h ≡ some action))
    × (lookup "status" h ≡ some (status_text status))

status_of-status_text : (s : ApprovalStatus) → status_of (status_text s) ≡ some s
unfolding status_of status_text
status_of-status_text ApprovalStatus.pending = refl
status_of-status_text ApprovalStatus.approved = refl
status_of-status_text ApprovalStatus.denied = refl
status_of-status_text ApprovalStatus.expired = refl

-- What is read of such a hash.
abbrev pub read_of :
    (fresh now : String)
    → ApprovalStatus
    → (agent task action : String) → List (String × String)
    → ApprovalRequest
read_of fresh now s agent task action h = record {
  id = elim (lookup "id" h) [ none ↦ fresh | some t ↦ t ];
  agent_name = agent;
  task_id = task;
  action_description = action;
  status = s;
  resolved_by = lookup "resolved_by" h;
  resolution_reason = lookup "resolution_reason" h;
  created_at = elim (lookup "created_at" h) [ none ↦ now | some t ↦ t ];
  resolved_at = lookup "resolved_at" h;
}

validate-Holds :
    (fresh now : String) (s : ApprovalStatus) (h : List (String × String))
    → (k : Holds s h) → validate fresh now h ≡ returned (read_of fresh now s k.0.0 k.1.0 k.2.0 h)
unfolding validate
validate-Holds fresh now s h ((a, ea), (t, et), (d, ed), es) =
    rw (ea, et, ed, es, status_of-status_text s, validate) refl

pub parsed-Holds :
    (f : Fresh) (s : ApprovalStatus) (h : List (String × String)) (k : Holds s h)
    → parsed f h ≡ returned (some (read_of f.id f.created_at s k.0.0 k.1.0 k.2.0 h))
unfolding parsed
parsed-Holds f s [] ((a, e), _, _, _) = ground arith
parsed-Holds f s (x ∷ h) k = rw (validate-Holds f.id f.created_at s (x ∷ h) k, parsed) refl

clean_written : (m : List (String × Option String)) → has_none (clean m) ≡ false
unfolding clean
clean_written [] = refl
clean_written ((k, v) ∷ m) = clean_written m

-- A hash that holds a request of that status and that id.
abbrev pub Kept : ApprovalStatus → String → List (String × String) → Type 0
Kept s id h = Holds s h × (lookup "id" h ≡ some id)

module _ (R : Hashes) (L : IsLawful R) where
  -- The hash under an id, with a request of that status and that id.
  abbrev pub Stored : ApprovalStatus → String → World R → Type 0
  Stored s id w = Kept s id (R.hgetall id w.db)

  pub saved :
      (r : ApprovalRequest) (w : World R)
      → ((save_request R r w).1 ≡ returned tt) × Stored r.status r.id (save_request R r w).0
  unfolding save_request dump clean
  saved r w =
      let m = clean (dump r) in
      let db = (R.hset r.id m w.db).0 in
      let field = λ (k : String).
        L.stores r.id r.id k m w.db (clean_written (dump r))
        ∙ ap
            (λ b.
              if b
              then written k m (lookup k (R.hgetall r.id w.db))
              else lookup k (R.hgetall r.id w.db))
            (eq_refl r.id) in
      (
        L.accepts r.id m w.db (clean_written (dump r)),
        (
          (
            (r.agent_name, field "agent_name"),
            (r.task_id, field "task_id"),
            (r.action_description, field "action_description"),
            field "status",
          ),
          field "id",
        ),
      )

  pub move_db :
      (m : Bool) (target : AgentState) (reason : String) (w : World R)
      → (move R m target reason w).db ≡ w.db
  unfolding move note
  move_db true target reason w = refl
  move_db false target reason w = refl

  -- A request that is saved under its id and taken off the index.
  pub unindexed-Stored :
      (m : Bool) (target : AgentState) (reason id : String) (r : ApprovalRequest) (w : World R)
      → r.id ≡ id
      → Stored r.status id (move R m target reason (unindex R id (save_request R r w).0))
  unfolding unindex
  unindexed-Stored m target reason id r w e =
      let w' = (save_request R r w).0 in
      let hash =
        ap (R.hgetall id) (move_db m target reason (unindex R id w')) ∙ L.srem_keeps id id w'.db in
      subst (Kept r.status id) (sym hash)
        (subst (λ i. Kept r.status i (R.hgetall i w'.db)) e (saved r w).1)

  settle-Stored :
      (kind : String) (target : AgentState) (reason : String) (m : Bool) (id : String)
      (r : ApprovalRequest) (w : World R)
      → r.id ≡ id
      → let (w', out) = settle_request R kind target reason m id r w in
        (out ≡ returned tt) × Stored r.status id w'
  unfolding settle_request note
  settle-Stored kind target reason m id r w e =
      rw ((saved r w).0, settle_request) (refl, unindexed-Stored m target reason id r w e)

  when_settled :
      (f : Fresh) (id : String) (s : ApprovalStatus)
      (go : ApprovalRequest → World R → World R × Outcome (Unit {0})) (w : World R)
      → is_pending s ≡ false
      → Stored s id w
      → when_pending R f id go w ≡ (w, raised "ValueError")
  unfolding when_pending load_request
  when_settled f id s go w n (h, _) =
      rw (parsed-Holds f s (R.hgetall id w.db) h, when_pending) (rw n refl)

  -- What `approve` and `deny` find of a request that is pending.
  when_pending_found :
      (f : Fresh) (id : String) (go : ApprovalRequest → World R → World R × Outcome (Unit {0}))
      (w : World R)
      → Stored ApprovalStatus.pending id w
      → (r : ApprovalRequest) × (r.id ≡ id) × (when_pending R f id go w ≡ go r w)
  unfolding when_pending load_request
  when_pending_found f id go w (h, i) =
      let r =
        read_of f.id f.created_at ApprovalStatus.pending h.0.0 h.1.0 h.2.0 (R.hgetall id w.db) in
      (
        r,
        ap (λ (o : Option String). elim o as (λ _. String) [ none ↦ f.id | some t ↦ t ]) i,
        rw (parsed-Holds f ApprovalStatus.pending (R.hgetall id w.db) h, when_pending) refl,
      )

  -- Every later call raises and changes nothing.
  abbrev pub Closed : String → World R → Type 0
  Closed id w =
      (f : Fresh) (by reason : String) (m : Bool)
      → (approve R f id by m w ≡ (w, raised "ValueError"))
        × (deny R f id by reason m w ≡ (w, raised "ValueError"))

  pub Stored-Closed :
      (s : ApprovalStatus) (id : String) (w : World R)
      → is_pending s ≡ false
      → Stored s id w
      → Closed id w
  unfolding approve deny
  Stored-Closed s id w n st f by reason m = (
    when_settled f id s (grant R f id by m) w n st,
    when_settled f id s (refuse R f id by reason m) w n st,
  )

  -- What a resolution of a pending request comes to.
  abbrev pub Resolved : ApprovalStatus → String → World R × Outcome (Unit {0}) → Type 0
  Resolved s id (w, out) = (out ≡ returned tt) × Stored s id w × Closed id w

  resolves :
      (f : Fresh) (id : String) (s : ApprovalStatus)
      (go : ApprovalRequest → World R → World R × Outcome (Unit {0})) (w : World R)
      → is_pending s ≡ false
      → ((r : ApprovalRequest)
          → r.id ≡ id
          → let (w', out) = go r w in (out ≡ returned tt) × Stored s id w')
      → Stored ApprovalStatus.pending id w
      → Resolved s id (when_pending R f id go w)
  resolves f id s go w n good p =
      let (r, i, e) = when_pending_found f id go w p in
      let (ok, st) = good r i in
      subst (Resolved s id) (sym e) (ok, st, Stored-Closed s id (go r w).0 n st)

  -- A request that is pending under its own id can be approved or denied, either succeeds, and after
  -- it every other approval or denial of that request raises and changes nothing.
  pub settles_once :
      (f : Fresh) (id by reason : String) (m : Bool) (w : World R)
      → Stored ApprovalStatus.pending id w
      → Resolved ApprovalStatus.approved id (approve R f id by m w)
        × Resolved ApprovalStatus.denied id (deny R f id by reason m w)
  unfolding approve deny grant refuse
  settles_once f id by reason m w p = (
    resolves f id ApprovalStatus.approved (grant R f id by m) w refl
        (λ r i.
          settle-Stored "ApprovalApproved" AgentState.executing ("approval granted by " <> by) m id
            (approved_request f by r) w i)
        p,
    resolves f id ApprovalStatus.denied (refuse R f id by reason m) w refl
        (λ r i.
          settle-Stored "ApprovalDenied" AgentState.reviewing
            ("approval denied by " <> by <> ": " <> reason) m id (denied_request f by reason r) w i)
        p,
  )
