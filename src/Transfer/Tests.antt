-- ===== src/Transfer/Tests.antt =====
-- The theorems on the transfer, at the steps of a concrete one.
use smart_monitor_back_end.Base.{
  ◌≤◌, ◌<◌, ◌≡◌, ◌≢◌, ◌↔◌, refl, true, false, none, some, arith, keep, nat_eq, List, All,
}
use smart_monitor_back_end.Base.Http.{ok, err, http_exception, transfer_rejected}
use smart_monitor_back_end.Database.{User, Device, find_device, find_user, find_transfer}
use smart_monitor_back_end.Transfer.Archive.{Epoch, completed_ownership_epochs}
use smart_monitor_back_end.Transfer.Archive.Chain.{Among, Apart}
use smart_monitor_back_end.Transfer.Archive.Window.{Reads, former_owner_window-Reads}
use smart_monitor_back_end.Transfer.Notice.{transfer_cause}
use smart_monitor_back_end.Transfer.System.{
  Consistent, issues, stages, completes, here, next, Reach-Consistent,
}
use smart_monitor_back_end.Transfer.System.Waiting.{closed_until_due}
use smart_monitor_back_end.Transfer.System.Challenges.{OneChallenge, Reach-OneChallenge}
use smart_monitor_back_end.Transfer.Stage.{stage_verified_transfer}
use smart_monitor_back_end.Transfer.Stage.Staged.{Staged}
use smart_monitor_back_end.Transfer.Stage.Spent.{stage_verified_transfer-Staged, challenge_spent}
use smart_monitor_back_end.Transfer.Finalize.{
  complete_due_transfer, complete_row, single_owner, is_owner, members_of,
}
use smart_monitor_back_end.Transfer.Finalize.Once.{
  Attested, complete_due_transfer_requires, complete_due_transfer_again,
}
use smart_monitor_back_end.Transfer.Guard.{
  active_transfer_access_allowed, require_active_transfer_access, pending_transfer,
  latest_completed_transfer,
}
use smart_monitor_back_end.Transfer.Guard.Access.{require-eq-allowed}
use smart_monitor_back_end.Transfer.Guard.Latest.{AllEffectiveBy}
use smart_monitor_back_end.Transfer.Guard.Period.{
  BeforeRequest, HoldsEpoch, bounded_history_period-ok,
}
use smart_monitor_back_end.Transfer.Ownership.Epochs.{Holds, attribution_safe}
use smart_monitor_back_end.Transfer.Scenario.{
  zeros_hex, env, db, request, transfer, staged_db, staging, broker, completed_db, staged_found,
  completing, completing_early, same_challenges, request_again, transfer_again, staged_again_db,
  staging_again, staged_period, epoch, completed_epoch, measured_in_epoch, issued, issuing,
  db-Consistent, read_by_former_owner,
}

stage_verified_transfer-Staged_example : Staged env request 1000 db transfer staged_db
stage_verified_transfer-Staged_example =
    stage_verified_transfer-Staged env true request 1000 db staged_db transfer staging

challenge_spent_example :
    stage_verified_transfer env true request 70000000 completed_db ≢ (ok transfer, staged_db)
challenge_spent_example =
    challenge_spent env true request request 1000 70000000 db staged_db completed_db staged_db
      transfer transfer staging same_challenges refl

complete_due_transfer_requires_example :
    (d : Device) × (find_device 7 staged_db ≡ some d)
    × (transfer.cause ≡ transfer_cause)
    × (1000 < 60001000)
    × (60001000 ≤ 60001000)
    × Attested broker transfer d 60001000 staged_db
    × (single_owner (keep is_owner (members_of d.id staged_db)) 1 ≡ true)
    × (u : User) × (find_user 2 staged_db ≡ some u)
    × (u.is_active ≡ true)
    × (u.email_verified ≡ true)
complete_due_transfer_requires_example =
    complete_due_transfer_requires env true broker 1 60001000 staged_db completed_db transfer
      (complete_row 60001000 transfer) staged_found refl completing

complete_due_transfer_again_example :
    complete_due_transfer env true none 1 90000000 completed_db
    ≡ (ok (complete_row 60001000 transfer), completed_db)
complete_due_transfer_again_example =
    complete_due_transfer_again env broker none 1 60001000 90000000 staged_db completed_db transfer
      (complete_row 60001000 transfer) staged_found refl (omega arith) completing

require-eq-allowed_example :
    (active_transfer_access_allowed true 7 2 "owner" completed_db ≡ true)
    ↔ (require_active_transfer_access true 7 2 "owner" completed_db ≡ ok tt)
require-eq-allowed_example = require-eq-allowed true 7 2 "owner" completed_db

closed_until_due_example :
    (find_transfer 1 staged_db ≡ some transfer)
    × (pending_transfer true 7 staged_db ≡ some transfer)
    × (active_transfer_access_allowed true 7 1 "owner" staged_db ≡ false)
    × (require_active_transfer_access true 7 1 "owner" staged_db
        ≡ err (http_exception 409 "Device transfer pending"))
closed_until_due_example =
    closed_until_due env request 1000 1 "owner" db transfer staging
      (next here (
        completes broker 1 60000999 (err (transfer_rejected "transfer delay not elapsed"))
          completing_early))
      (tt, omega arith)

bounded_history_period-ok_example :
    (10 ≤ 10)
    × (10 < 1000)
    × (1000 ≤ 5000)
    × AllEffectiveBy 7 10 staged_db.transfers
    × BeforeRequest 1000 (pending_transfer true 7 staged_db)
    × HoldsEpoch 1 "owner" (latest_completed_transfer true 7 staged_db)
bounded_history_period-ok_example =
    bounded_history_period-ok 7 1 "owner" 10 5000 10 1000 staged_db staged_period

attribution_safe_example :
    Holds 5 completed_db epoch × AllEffectiveBy 7 60001001 completed_db.transfers
attribution_safe_example =
    attribution_safe 5 60001001 completed_db epoch completed_epoch measured_in_epoch

Reach-OneChallenge_example : OneChallenge 2000 staged_again_db
Reach-OneChallenge_example =
    Reach-OneChallenge 2000
      (next (next here (issues "SM-0123456789AB" (some 2) 500 "c2" zeros_hex issued issuing))
        (stages request_again 1000 (ok transfer_again) staging_again))
      ((tt, omega arith), tt) (record { one_active = λ k. omega arith })

Reach-Consistent_example : Consistent completed_db
Reach-Consistent_example =
    Reach-Consistent
      (next (next here (stages request 1000 (ok transfer) staging))
        (completes broker 1 60001000 (ok (complete_row 60001000 transfer)) completing))
      db-Consistent

former_owner_window-Reads_example :
    (found : Device × List Epoch) × (completed_ownership_epochs 7 completed_db ≡ ok found)
    × (e : Epoch) × Among e found.1
    × Reads 1 10 5000 e (10, 1000, none)
    × All (Apart e) found.1
former_owner_window-Reads_example =
    former_owner_window-Reads 7 1 10 5000 completed_db (10, 1000, none) read_by_former_owner
