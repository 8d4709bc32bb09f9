-- ===== src/Agents/Approval/Tests.antt =====
-- Approvals over the database in memory, and the theorems at inputs that meet their hypotheses.
use clartt_capital.Common.{◌≡◌, refl, true, false, none, some, [], ◌∷◌, if◌then◌else◌}
use clartt_capital.Floats.Naturals.{naturals}
use clartt_capital.Breaker.{returned, raised}
use clartt_capital.Agents.Models.{ApprovalStatus}
use clartt_capital.Agents.Autonomy.{AutonomyMode}
use clartt_capital.Agents.Approval.Methods.{request_approval, approve, deny}
use clartt_capital.Agents.Approval.Records.{World, Fresh, status_text}
use clartt_capital.Agents.Approval.Requests.{request_approval_refused}
use clartt_capital.Agents.Approval.Final.{Resolved, Closed, Stored, settles_once}
use clartt_capital.Agents.Approval.Expiry.{Expiry, check_one, elapsed_hours}
use clartt_capital.Agents.Approval.Expired.{check_one_expires}
use clartt_capital.Agents.Approval.Memory.{memory, memory-IsLawful}

abbrev fresh : Fresh
fresh = record { id = "new"; created_at = "12:00"; now = "13:00" }

-- A request that was written before, with the texts that stand for None.
abbrev world : World memory
world = record {
  db = record {
    hash = λ id.
        ("id", id)
        ∷ ("agent_name", "risk")
        ∷ ("task_id", "t1")
        ∷ ("action_description", "deploy_live")
        ∷ ("status", "PENDING")
        ∷ ("resolved_by", "")
        ∷ ("created_at", "12:00")
        ∷ [];
    pending = "r1" ∷ [];
  };
  notices = [];
}

request_approval_refused_example :
    request_approval memory (some AutonomyMode.approval) fresh "risk" "t1" "deploy_live" true world
    ≡ (world, raised "DataError")
request_approval_refused_example =
    request_approval_refused memory memory-IsLawful (some AutonomyMode.approval) fresh "risk" "t1"
      "deploy_live" true world

stored : Stored memory memory-IsLawful ApprovalStatus.pending "r1" world
unfolding status_text
stored = ((("risk", refl), ("t1", refl), ("deploy_live", refl), refl), refl)

settles_once_example :
    Resolved memory memory-IsLawful ApprovalStatus.approved "r1"
      (approve memory fresh "r1" "admin" true world)
    × Resolved memory memory-IsLawful ApprovalStatus.denied "r1"
        (deny memory fresh "r1" "admin" "too risky" true world)
settles_once_example =
    settles_once memory memory-IsLawful fresh "r1" "admin" "too risky" true world stored

-- A day, and a request that is as old as that.
abbrev expiry : Expiry naturals
expiry = record {
  timeout_hours = 24;
  parse_time = λ t. some 0;
  now = 86400000000;
  registered = none;
}

check_one_expires_example :
    let (w', out) = check_one memory expiry fresh "r1" world in
    if naturals.le expiry.timeout_hours (elapsed_hours naturals 0 expiry.now)
    then (out ≡ returned true)
      × Stored memory memory-IsLawful ApprovalStatus.expired "r1" w'
      × Closed memory memory-IsLawful "r1" w'
    else (w' ≡ world) × (out ≡ returned false)
check_one_expires_example =
    check_one_expires memory memory-IsLawful expiry fresh "r1" "12:00" 0 world stored refl refl
