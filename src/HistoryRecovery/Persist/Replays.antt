-- ===== src/HistoryRecovery/Persist/Replays.antt =====
-- app/local_history_recovery.py: storing a page again changes nothing, and a page that was accepted
-- is in the ledger.
use smart_monitor_back_end.Base.{
  ℕ, ◌≡◌, refl, sym, ap, subst, ◌∙◌, String, Bool, false, ◌&&◌, some, List, [], ◌∷◌, arith, All,
  first, keep, ◌==◌, nat_eq, string_eq,
}
use smart_monitor_back_end.Base.Http.{Result, ok, err, >>=-eq-ok, ok_injective}
use smart_monitor_back_end.Base.Json.{Fields}
use smart_monitor_back_end.Database.{Db, Device, PowerMeasurement}
use smart_monitor_back_end.PowerSummary.{Calendar}
use smart_monitor_back_end.HistoryRecovery.{or_recovery, recovery_if}
use smart_monitor_back_end.HistoryRecovery.Pages.{or_recovery-ok, recovery_if-ok}
use smart_monitor_back_end.HistoryRecovery.Records.{channel_rows, is_power_channel_key}
use smart_monitor_back_end.HistoryRecovery.Persist.{
  import_records, HistoryStore, known_device, persist_records, persist_page, committed,
}
use smart_monitor_back_end.HistoryRecovery.Persist.Stored.{
  Grows, IsRecorded, import_records-Recorded, import_records_replayed,
}

module _ {Figures : Type 0} (calendar : Calendar)
    (figures_of : List PowerMeasurement → Figures) where
  -- The device and the import behind a page that was stored.
  pub persist_records-Import :
      (staging : Bool) (now : ℕ) (mqtt uid : String) (rows : List Fields)
      (s s' : HistoryStore Figures) (count : ℕ)
      → persist_records calendar figures_of staging now mqtt uid rows s ≡ ok (count, s')
      → (staging ≡ false)
        × (d : Device) × (first (known_device mqtt uid) s.db.devices ≡ some d)
        × Grows s.db s'.db
        × All (IsRecorded d.id (channel_rows d.id s.db) s'.db) rows
  unfolding persist_records
  persist_records-Import staging now mqtt uid rows s s' count h =
      let (_, e0, h0) = >>=-eq-ok (recovery_if staging _) _ h in
      let (d, e1, h1) =
        >>=-eq-ok (or_recovery (first (known_device mqtt uid) s.db.devices) _) _ h0 in
      let (i, e2, h2) =
        >>=-eq-ok
          (import_records calendar figures_of d.id (calendar.local_date now)
            (channel_rows d.id s.db) rows
            (record { db = s.db; imported_count = 0; affected_completed_days = [] }))
          _ h1 in
      let (grows, all) =
        import_records-Recorded calendar figures_of d.id (calendar.local_date now)
          (channel_rows d.id s.db) rows _ i e2 in
      let same : i.db ≡ s'.db =
        ap (λ (r : ℕ × HistoryStore Figures). r.1.db) (ok_injective _ (count, s') h2) in
      (
        recovery_if-ok staging _ e0,
        d,
        or_recovery-ok (first (known_device mqtt uid) s.db.devices) _ e1,
        subst (λ (x : Db). Grows s.db x) same grows,
        subst (λ (x : Db). All (IsRecorded d.id (channel_rows d.id s.db) x) rows) same all,
      )

  persist_records_replayed :
      (later : ℕ) (mqtt uid : String) (rows : List Fields) (s : HistoryStore Figures) (d : Device)
      → first (known_device mqtt uid) s.db.devices ≡ some d
      → All (IsRecorded d.id (channel_rows d.id s.db) s.db) rows
      → persist_records calendar figures_of false later mqtt uid rows s ≡ ok (0, s)
  unfolding persist_records
  persist_records_replayed later mqtt uid rows s d known all =
      rw
        (
          known,
          import_records_replayed calendar figures_of d.id (calendar.local_date later)
              (channel_rows d.id s.db) rows
              (record { db = s.db; imported_count = 0; affected_completed_days = [] }) all,
        )
        refl

  committed-ok :
      (s s' : HistoryStore Figures) (r : Result (ℕ × HistoryStore Figures)) (count : ℕ)
      → committed calendar figures_of s r ≡ (ok count, s')
      → r ≡ ok (count, s')
  committed-ok s s' (ok (n, t)) count h = ground (arith, h)
  committed-ok s s' (err e) count h = absurd (ground (arith, h))

  -- Storing a page again, at any later time and from the store that the first time left, imports no
  -- record and leaves the store as it is: a page whose acknowledgement is lost can be sent again.
  pub persist_page_replayed :
      (staging : Bool) (now later : ℕ) (mqtt uid : String) (rows : List Fields)
      (s s' : HistoryStore Figures) (count : ℕ)
      → persist_page calendar figures_of staging now mqtt uid rows s ≡ (ok count, s')
      → persist_page calendar figures_of staging later mqtt uid rows s' ≡ (ok 0, s')
  unfolding persist_page
  persist_page_replayed staging now later mqtt uid [] s s' count h = refl
  persist_page_replayed staging now later mqtt uid (r ∷ rs) s s' count h =
      let stored =
        committed-ok s s' (persist_records calendar figures_of staging now mqtt uid (r ∷ rs) s)
          count h in
      let (enabled, d, known, grows, all) =
        persist_records-Import staging now mqtt uid (r ∷ rs) s s' count stored in
      rw
        (
          enabled,
          persist_records_replayed later mqtt uid (r ∷ rs) s' d
              (ap (first (known_device mqtt uid)) grows.0 ∙ known)
              (subst
                (λ cs.
                  All
                    (IsRecorded d.id
                      (keep (λ c. c.device_id == d.id && is_power_channel_key c.channel_key) cs)
                      s'.db)
                    (r ∷ rs))
                (sym grows.1) all),
        )
        refl
