-- ===== src/HistoryRecovery/Persist.antt =====
-- app/local_history_recovery.py, `LocalHistoryRepository`: a page of records goes into the ledger of
-- the device and, record by record, into the measurements of its channels.
pub mod Stored
pub mod Replays
pub mod Accepted
use smart_monitor_back_end.Base.{
  ℕ, suc, ◌+◌, ◌*◌, String, Bool, true, false, not, ◌&&◌, ◌||◌, Option, none, some, List, [], ◌∷◌,
  ◌++◌, ltb, leb, any, first, keep, if◌then◌else◌, ◌==◌, nat_eq, string_eq, pair_eq, option_eq,
}
use Prim.Native.String.{◌++◌ as str_append}
use smart_monitor_back_end.Base.Http.{
  Result, ok, err, history_recovery_error, data_error, raise_if, ◌>>=◌, ◌>>◌,
}
use smart_monitor_back_end.Base.Json.{
  pos, finite, not_finite, Number, Json, null, boolean, integer, float, text, array, object, Items,
  item, end, Fields, field, closed, get_field, has_field, as_object,
}
use smart_monitor_back_end.Database.{
  Db, Device, DeviceChannel, LocalHistoryRecord, PowerMeasurement,
}
use smart_monitor_back_end.MeasurementContract.{
  float_of, Checked, accepted, rejected, Values, electrical_field_quality_keys,
  normalize_electrical_measurement,
}
use smart_monitor_back_end.PowerSummary.{Calendar, PowerDailySummary, rebuild_completed_day_summary}
use smart_monitor_back_end.HistoryRecovery.{or_recovery, recovery_if, positive_int}
use smart_monitor_back_end.HistoryRecovery.Records.{
  Prepared, accepted_values, bigint_end, channel_of, channel_rows, check_historical,
  contract_entries, contract_fields, energy_channels_of, entries_of, has_nan, has_nan_fields,
  has_nan_items, is_power_channel_key, last_timestamp, normalize_history_energy, power_channel_keys,
  prepare_channels, prepare_record,
}

abbrev pub recorded : ℕ → ℕ → Db → Bool
recorded device_id sequence db =
    any (λ r. r.device_id == device_id && r.sequence == sequence) db.local_history_records

-- INSERT … ON CONFLICT DO NOTHING
abbrev pub insert_measurement : PowerMeasurement → Db → Db
insert_measurement m db =
    if any (λ o. o.channel_id == m.channel_id && o.measured_at == m.measured_at)
      db.power_measurements
    then db
    else record db { power_measurements = m ∷ db.power_measurements }

abbrev pub insert_measurements : ℕ → List (ℕ × Values) → Db → Db
insert_measurements captured_at [] db = db
insert_measurements captured_at ((channel_id, values) ∷ channels) db =
    insert_measurements captured_at channels (
      insert_measurement
        (record { channel_id = channel_id; measured_at = captured_at; electrical = values }) db)

-- affected_completed_days.add(…)
abbrev pub add_day : ℕ × ℕ → List (ℕ × ℕ) → List (ℕ × ℕ)
add_day day days = if any (λ d. d == day) days then days else days ++ day ∷ []

abbrev pub add_days : ℕ → List (ℕ × Values) → List (ℕ × ℕ) → List (ℕ × ℕ)
add_days date [] days = days
add_days date ((channel_id, values) ∷ channels) days =
    add_days date channels (add_day (channel_id, date) days)

pub record Import : Type 0 where
  pub db : Db
  pub imported_count : ℕ
  pub affected_completed_days : List (ℕ × ℕ)

-- The database, and its table of summaries.
pub record HistoryStore (Figures : Type 0) : Type 0 where
  pub db : Db
  pub summaries : List (PowerDailySummary Figures)

-- The device that a recovery is for: both identifiers fit, and it is active.
abbrev pub known_device : String → String → Device → Bool
known_device mqtt_device_id device_uid d =
    d.mqtt_device_id == some mqtt_device_id && (d.device_uid == device_uid && d.is_active)

module _ {Figures : Type 0} (calendar : Calendar)
    (figures_of : List PowerMeasurement → Figures) where
  -- A record that the ledger has already is skipped.
  unfoldable pub write_record : ℕ → ℕ → Fields → Prepared → Import → Import
  write_record device_id current_local_date row p i =
      if recorded device_id p.sequence i.db then i else record {
        db = insert_measurements p.captured_at p.channels (record i.db {
          local_history_records =
              record {
                device_id = device_id;
                sequence = p.sequence;
                captured_at = p.captured_at;
                exported = row;
              }
              ∷ i.db.local_history_records;
        });
        imported_count = suc i.imported_count;
        affected_completed_days =
            if ltb (calendar.local_date p.captured_at) current_local_date
            then add_days (calendar.local_date p.captured_at) p.channels i.affected_completed_days
            else i.affected_completed_days;
      }

  -- the loop over the records
  unfoldable pub import_records : ℕ → ℕ → List DeviceChannel → List Fields → Import → Result Import
  unfolding prepare_record write_record
  import_records device_id current_local_date channels [] i = ok i
  import_records device_id current_local_date channels (row ∷ rows) i = do
    prepared ← prepare_record channels row
    import_records device_id current_local_date channels rows
        (write_record device_id current_local_date row prepared i)

  abbrev pub rebuild_days :
      ℕ
      → List PowerMeasurement
      → List (ℕ × ℕ)
      → List (PowerDailySummary Figures)
      → List (PowerDailySummary Figures)
  rebuild_days current_local_date measurements [] summaries = summaries
  rebuild_days current_local_date measurements ((channel_id, date) ∷ days) summaries =
      rebuild_days current_local_date measurements days
        (rebuild_completed_day_summary calendar figures_of channel_id date current_local_date
          measurements summaries).1

  unfoldable pub persist_records :
      Bool
      → ℕ
      → String
      → String
      → List Fields
      → HistoryStore Figures
      → Result (ℕ × HistoryStore Figures)
  unfolding import_records rebuild_completed_day_summary
  persist_records staging_enabled now mqtt_device_id device_uid records store = do
    recovery_if staging_enabled "historical recovery unavailable during ownership-transfer staging"
    device ←
        or_recovery (first (known_device mqtt_device_id device_uid) store.db.devices)
          "history device identity is unknown"
    let current_local_date = calendar.local_date now
    imported ←
        import_records device.id current_local_date (channel_rows device.id store.db) records
          (record { db = store.db; imported_count = 0; affected_completed_days = [] })
    ok (
      imported.imported_count,
      record {
        db = imported.db;
        summaries =
            rebuild_days current_local_date imported.db.power_measurements
              imported.affected_completed_days store.summaries;
      },
    )

  -- `db.commit()`, or `db.rollback()` on any exception
  abbrev pub committed :
      HistoryStore Figures → Result (ℕ × HistoryStore Figures) → Result ℕ × HistoryStore Figures
  committed store (ok (count, store')) = (ok count, store')
  committed store (err e) = (err e, store)

  -- `if not records: return 0`
  unfoldable pub persist_page :
      Bool
      → ℕ
      → String
      → String
      → List Fields
      → HistoryStore Figures
      → Result ℕ × HistoryStore Figures
  unfolding persist_records
  persist_page staging_enabled now mqtt_device_id device_uid [] store = (ok 0, store)
  persist_page staging_enabled now mqtt_device_id device_uid (r ∷ rs) store =
      committed store (persist_records staging_enabled now mqtt_device_id device_uid (r ∷ rs) store)
