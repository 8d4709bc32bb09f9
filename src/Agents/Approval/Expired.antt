-- ===== src/Agents/Approval/Expired.antt =====
-- When a pending request expires. (approval.py, `check_expiry`)
use clartt_capital.Common.{
  ℕ, ◌≡◌, refl, ap, ◌∙◌, true, false, Option, none, some, String, ◌<>◌, if◌then◌else◌, lookup,
  Bool-cases, inl, inr,
}
use clartt_capital.Floats.{Floats}
use clartt_capital.Breaker.{returned}
use clartt_capital.Agents.Models.{AgentState, ApprovalRequest, ApprovalStatus}
use clartt_capital.Agents.Approval.Methods.{note, load_request}
use clartt_capital.Agents.Approval.Records.{Hashes, World, Fresh}
use clartt_capital.Agents.Approval.Requests.{IsLawful}
use clartt_capital.Agents.Approval.Final.{
  Stored, Closed, Stored-Closed, saved, unindexed-Stored, read_of, parsed-Holds,
}
use clartt_capital.Agents.Approval.Expiry.{
  Expiry, elapsed_hours, has_agent, expired_request, expire, check_one,
}

module _ {N : Floats} (R : Hashes) (L : IsLawful R) (x : Expiry N) where
  expire-Stored :
      (f : Fresh) (id : String) (r : ApprovalRequest) (w : World R)
      → r.id ≡ id
      → let (w', out) = expire R x f id r w in (out ≡ returned true) × Stored R L r.status id w'
  unfolding expire note
  expire-Stored f id r w e =
      rw ((saved R L r w).0, expire)
        (
          refl,
          unindexed-Stored R L (has_agent x r.agent_name) AgentState.idle
              ("approval " <> (id <> " expired")) id r w e,
        )

  check_one_pending :
      (f : Fresh) (id created_at : String) (created : ℕ) (w : World R)
      → (p : Stored R L ApprovalStatus.pending id w)
      → lookup "created_at" (R.hgetall id w.db) ≡ some created_at
      → x.parse_time created_at ≡ some created
      → let h = p.0 in
        let r =
          read_of f.id f.created_at ApprovalStatus.pending h.0.0 h.1.0 h.2.0 (R.hgetall id w.db) in
        check_one R x f id w ≡ (
          if N.le x.timeout_hours (elapsed_hours N created x.now)
          then expire R x f id (expired_request x f r) w
          else (w, returned false))
  unfolding check_one load_request
  check_one_pending f id created_at created w (h, i) c t =
      let e = parsed-Holds f ApprovalStatus.pending (R.hgetall id w.db) h in
      let time =
        ap
          (λ (o : Option String).
            x.parse_time (elim o as (λ _. String) [ none ↦ f.created_at | some u ↦ u ]))
          c
        ∙ t in
      rw (e, check_one) (rw time refl)

  -- A pending request whose time of creation can be read: once it is as old as the timeout, it is
  -- stored as expired, and no later approval or denial of it succeeds; until then nothing changes.
  pub check_one_expires :
      (f : Fresh) (id created_at : String) (created : ℕ) (w : World R)
      → Stored R L ApprovalStatus.pending id w
      → lookup "created_at" (R.hgetall id w.db) ≡ some created_at
      → x.parse_time created_at ≡ some created
      → let (w', out) = check_one R x f id w in
        if N.le x.timeout_hours (elapsed_hours N created x.now)
        then (out ≡ returned true) × Stored R L ApprovalStatus.expired id w' × Closed R L id w'
        else (w' ≡ w) × (out ≡ returned false)
  check_one_expires f id created_at created w p c t =
      let h = p.0 in
      let r =
        read_of f.id f.created_at ApprovalStatus.pending h.0.0 h.1.0 h.2.0 (R.hgetall id w.db) in
      let same =
        ap (λ (o : Option String). elim o as (λ _. String) [ none ↦ f.id | some u ↦ u ]) p.1 in
      let (ok, st) = expire-Stored f id (expired_request x f r) w same in
      let e = check_one_pending f id created_at created w p c t in
      elim (Bool-cases (N.le x.timeout_hours (elapsed_hours N created x.now))) [
        | inl b ↦
            rw (e, b)
              (
                ok,
                st,
                Stored-Closed R L ApprovalStatus.expired id
                    (expire R x f id (expired_request x f r) w).0 refl st,
              )
        | inr b ↦ rw (e, b) (refl, refl)
      ]
