-- ===== src/Transfer/Broker/Tests.antt =====
-- The completion on broker evidence, in the scenario of the transfer.
use smart_monitor_back_end.Base.{◌≡◌, refl, true, some, [], ◌∷◌, ◌∷◌}
use smart_monitor_back_end.Base.Http.{ok, err, transfer_rejected}
use smart_monitor_back_end.Database.{Db}
use smart_monitor_back_end.Transfer.Stage.{stage_verified_transfer, last_generation, proof_valid}
use smart_monitor_back_end.Transfer.Finalize.{complete_row}
use smart_monitor_back_end.Transfer.Scenario.{env, transfer, staged_db}
use smart_monitor_back_end.Transfer.Broker.{
  Attestor, complete_due_transfer_from_broker, due_transfer_ids,
}
use smart_monitor_back_end.Transfer.Broker.Evidence.{
  Completed, complete_due_transfer_from_broker-Completed,
}

abbrev attestor : Attestor
attestor = record { attest = λ uid mqtt. some "audit-9"; verify = λ uid mqtt reference. true }

finished : Db
finished =
    (complete_due_transfer_from_broker env true (some attestor) 1 60001000 staged_db staged_db).1

finishing :
    complete_due_transfer_from_broker env true (some attestor) 1 60001000 staged_db staged_db
    ≡ (ok (complete_row 60001000 transfer), finished)
unfolding finished complete_due_transfer_from_broker staged_db stage_verified_transfer proof_valid
    last_generation
finishing = refl

-- The route of the device changed while the broker was asked.
redirected :
    (complete_due_transfer_from_broker env true
      (some attestor)
      1
      60001000
      staged_db
      (record staged_db { devices = [] })).0
    ≡ err (transfer_rejected "transfer or broker identity changed")
unfolding complete_due_transfer_from_broker staged_db stage_verified_transfer proof_valid
    last_generation
redirected = refl

due : due_transfer_ids true 60001000 100 staged_db ≡ ok (1 ∷ [])
unfolding due_transfer_ids staged_db stage_verified_transfer proof_valid last_generation
due = refl

complete_due_transfer_from_broker-Completed_example :
    Completed attestor 1 60001000 staged_db staged_db (ok (complete_row 60001000 transfer)) finished
complete_due_transfer_from_broker-Completed_example =
    complete_due_transfer_from_broker-Completed env true attestor 1 60001000 staged_db staged_db
      finished (ok (complete_row 60001000 transfer)) finishing
