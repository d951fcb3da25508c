-- ===== src/HistoryRecovery/Persist/Accepted.antt =====
-- app/local_history_recovery.py: the repository keeps what it stored, and has every record of a page
-- that it accepted; with it, a recovery loses no record.
use smart_monitor_back_end.Base.{
  ℕ, ◌≡◌, ◌<◌, ◌⊎◌, inl, inr, refl, sym, ap, subst, ◌∙◌, String, Bool, true, false, Option, none,
  some, List, [], ◌∷◌, arith, All, first, leb, ltb,
}
use smart_monitor_back_end.Base.Http.{
  Result, ok, err, data_error, raise_if, >>=-eq-ok, ok_injective,
}
use smart_monitor_back_end.Base.Json.{Json, Fields, object, get_field, as_object}
use smart_monitor_back_end.Database.{Db, Device, DeviceChannel, PowerMeasurement}
use smart_monitor_back_end.PowerSummary.{Calendar}
use smart_monitor_back_end.HistoryRecovery.{
  HistoryRecoveryRequest, or_recovery, recovery_if, positive_int,
}
use smart_monitor_back_end.HistoryRecovery.Pages.{sequence_of, or_recovery-ok, at_least-number}
use smart_monitor_back_end.HistoryRecovery.Recover.{Command, World, recover}
use smart_monitor_back_end.HistoryRecovery.Recover.Lossless.{
  Holds, KeepsBuffer, StoresPages, recover-Kept,
}
use smart_monitor_back_end.HistoryRecovery.Records.{
  channel_rows, Prepared, prepare_record, prepare_channels, entries_of, energy_channels_of, has_nan,
  last_timestamp, bigint_end,
}
use smart_monitor_back_end.HistoryRecovery.Persist.{
  recorded, HistoryStore, known_device, persist_records, persist_page, committed,
}
use smart_monitor_back_end.HistoryRecovery.Persist.Stored.{Grows, IsRecorded}
use smart_monitor_back_end.HistoryRecovery.Persist.Replays.{persist_records-Import}

prepare_record-sequence :
    (channels : List DeviceChannel) (row : Fields) (p : Prepared)
    → prepare_record channels row ≡ ok p
    → p.sequence ≡ sequence_of row
unfolding prepare_record
prepare_record-sequence channels row p h =
    let (sequence, e0, h0) = >>=-eq-ok (positive_int "sequence" (get_field "sequence" row)) _ h in
    let (captured, _, h1) =
      >>=-eq-ok (positive_int "captured_at" (get_field "captured_at" row)) _ h0 in
    let (_, _, h2) = >>=-eq-ok (recovery_if (ltb last_timestamp captured) _) _ h1 in
    let (_, _, h3) = >>=-eq-ok (recovery_if (has_nan (object row)) _) _ h2 in
    let (energy, _, h4) = >>=-eq-ok (or_recovery (as_object (energy_channels_of row)) _) _ h3 in
    let (prepared, _, h5) =
      >>=-eq-ok (prepare_channels channels (entries_of energy [] energy)) _ h4 in
    let (_, _, h6) = >>=-eq-ok (raise_if (leb bigint_end sequence) data_error) _ h5 in
    ap (λ (r : Prepared). r.sequence) (sym (ok_injective _ p h6))
    ∙ sym (at_least-number 1 (get_field "sequence" row) sequence (or_recovery-ok _ _ e0)).0

-- The ledger of the device that the identifiers name has the sequence.
abbrev pub in_ledger_of : Option Device → Db → ℕ → Bool
in_ledger_of none db q = false
in_ledger_of (some d) db q = recorded d.id q db

Holds-recorded :
    (d q : ℕ) (channels : List DeviceChannel) (db : Db) (rows : List Fields)
    → All (IsRecorded d channels db) rows
    → Holds q rows
    → recorded d q db ≡ true
Holds-recorded d q channels db [] all h = absurd h
Holds-recorded d q channels db (row ∷ rows) ((p, e, r), rest) (inl same) =
    subst (λ n. recorded d n db ≡ true) (prepare_record-sequence channels row p e ∙ same) r
Holds-recorded d q channels db (row ∷ rows) (_, rest) (inr there) =
    Holds-recorded d q channels db rows rest there

module _ {Figures : Type 0} (calendar : Calendar) (figures_of : List PowerMeasurement → Figures)
    (staging : Bool) (now : ℕ) (mqtt uid : String) where
  abbrev pub in_ledger : HistoryStore Figures → ℕ → Bool
  in_ledger s q = in_ledger_of (first (known_device mqtt uid) s.db.devices) s.db q

  grown-in_ledger :
      (s s' : HistoryStore Figures) (d : Device) (q : ℕ)
      → first (known_device mqtt uid) s.db.devices ≡ some d
      → Grows s.db s'.db
      → (in_ledger s' q ≡ recorded d.id q s'.db) × (in_ledger s q ≡ recorded d.id q s.db)
  grown-in_ledger s s' d q known g = (
    ap (λ o. in_ledger_of o s'.db q) (ap (first (known_device mqtt uid)) g.0 ∙ known),
    ap (λ o. in_ledger_of o s.db q) known,
  )

  pub persist_page-StoresPages :
      StoresPages (persist_page calendar figures_of staging now mqtt uid) in_ledger
  unfolding persist_page
  persist_page-StoresPages = record { keeps = keeps; stores = stores }
    where
      keeps_committed :
          (rows : List Fields) (q : ℕ) (s : HistoryStore Figures)
          (r : Result (ℕ × HistoryStore Figures))
          → persist_records calendar figures_of staging now mqtt uid rows s ≡ r
          → in_ledger s q ≡ true
          → in_ledger (committed calendar figures_of s r).1 q ≡ true
      keeps_committed rows q s (err e) p h = h
      keeps_committed rows q s (ok (n, t)) p h =
          let (_, d, known, grows, _) =
            persist_records-Import calendar figures_of staging now mqtt uid rows s t n p in
          let (now_in, was_in) = grown-in_ledger s t d q known grows in
          now_in ∙ grows.2 d.id q (sym was_in ∙ h)

      keeps :
          (rows : List Fields) (q : ℕ) (s : HistoryStore Figures)
          → in_ledger s q ≡ true
          → in_ledger (persist_page calendar figures_of staging now mqtt uid rows s).1 q ≡ true
      keeps [] q s h = h
      keeps (r ∷ rs) q s h = keeps_committed (r ∷ rs) q s _ refl h

      stores_committed :
          (rows : List Fields) (q count : ℕ) (s : HistoryStore Figures)
          (r : Result (ℕ × HistoryStore Figures))
          → persist_records calendar figures_of staging now mqtt uid rows s ≡ r
          → (committed calendar figures_of s r).0 ≡ ok count
          → Holds q rows
          → in_ledger (committed calendar figures_of s r).1 q ≡ true
      stores_committed rows q count s (err e) p k h = absurd (ground (arith, k))
      stores_committed rows q count s (ok (n, t)) p k h =
          let (_, d, known, grows, all) =
            persist_records-Import calendar figures_of staging now mqtt uid rows s t n p in
          (grown-in_ledger s t d q known grows).0
          ∙ Holds-recorded d.id q (channel_rows d.id s.db) t.db rows all h

      stores :
          (rows : List Fields) (q count : ℕ) (s : HistoryStore Figures)
          → (persist_page calendar figures_of staging now mqtt uid rows s).0 ≡ ok count
          → Holds q rows
          → in_ledger (persist_page calendar figures_of staging now mqtt uid rows s).1 q ≡ true
      stores [] q count s k h = absurd h
      stores (r ∷ rs) q count s k h = stores_committed (r ∷ rs) q count s _ refl k h

  -- However a recovery ends, with a result or an error of the device, of the repository or of a
  -- check: a record that the device had in its buffer after the acknowledged sequence is still in the
  -- buffer, or it is in the ledger of the device. The firmware is assumed to remove nothing when it
  -- is read, to leave no record out of a page, and to remove only what an acknowledgement covers.
  pub recover_lossless :
      {D : Type 0} (command_sender : Command → D → Result Json × D) (buffered : D → ℕ → Bool)
      (request : HistoryRecoveryRequest) (w w' : World D (HistoryStore Figures))
      (result : Result (ℕ × ℕ)) (q : ℕ)
      → KeepsBuffer command_sender buffered
      → buffered w.device q ≡ true
      → request.acknowledged_through_sequence < q
      → recover command_sender (persist_page calendar figures_of staging now mqtt uid) request w
        ≡ (result, w')
      → (buffered w'.device q ≡ true) ⊎ (in_ledger w'.store q ≡ true)
  recover_lossless command_sender buffered request w w' result q device there ahead h =
      subst (λ r. (buffered r.1.device q ≡ true) ⊎ (in_ledger r.1.store q ≡ true)) h
        (recover-Kept command_sender (persist_page calendar figures_of staging now mqtt uid)
          buffered in_ledger device persist_page-StoresPages request q w there ahead)
