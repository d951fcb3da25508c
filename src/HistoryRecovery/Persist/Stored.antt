-- ===== src/HistoryRecovery/Persist/Stored.antt =====
-- app/local_history_recovery.py: what the import of a page leaves in the ledger.
use smart_monitor_back_end.Base.{
  ℕ, ◌≡◌, inl, inr, refl, subst, ◌∙◌, Bool, true, false, ◌&&◌, ◌||◌, Bool-cases, List, [], ◌∷◌,
  arith, All, any, ◌==◌, nat_eq, if◌then◌else◌, eqb_iff,
}
use smart_monitor_back_end.Base.Http.{ok, >>=-eq-ok, ok_injective}
use smart_monitor_back_end.Base.Json.{Fields}
use smart_monitor_back_end.Database.{Db, DeviceChannel, PowerMeasurement}
use smart_monitor_back_end.MeasurementContract.{Values}
use smart_monitor_back_end.PowerSummary.{Calendar}
use smart_monitor_back_end.HistoryRecovery.Records.{Prepared, prepare_record}
use smart_monitor_back_end.HistoryRecovery.Persist.{
  recorded, insert_measurement, insert_measurements, Import, write_record, import_records,
}

-- Same devices and channels, and no entry of the ledger is lost.
abbrev pub Grows : Db → Db → Type 0
Grows db db' =
    (db'.devices ≡ db.devices)
    × (db'.channels ≡ db.channels)
    × ((d q : ℕ) → recorded d q db ≡ true → recorded d q db' ≡ true)

Grows-trans : (a b c : Db) → Grows a b → Grows b c → Grows a c
Grows-trans a b c g h = (h.0 ∙ g.0, h.1 ∙ g.1, λ d q r. h.2 d q (g.2 d q r))

insert_measurement-Grows : (m : PowerMeasurement) (db : Db) → Grows db (insert_measurement m db)
insert_measurement-Grows m db =
    elim (any (λ o. o.channel_id == m.channel_id && o.measured_at == m.measured_at)
        db.power_measurements)
      as (λ b.
        Grows db (if b then db else record db { power_measurements = m ∷ db.power_measurements })) [
          | true ↦ (refl, refl, λ d q r. r)
          | false ↦ (refl, refl, λ d q r. r)
        ]

insert_measurements-Grows :
    (t : ℕ) (channels : List (ℕ × Values)) (db : Db) → Grows db (insert_measurements t channels db)
insert_measurements-Grows t [] db = (refl, refl, λ d q r. r)
insert_measurements-Grows t ((c, values) ∷ channels) db =
    let m : PowerMeasurement = record { channel_id = c; measured_at = t; electrical = values } in
    Grows-trans db (insert_measurement m db)
      (insert_measurements t channels (insert_measurement m db)) (insert_measurement-Grows m db)
      (insert_measurements-Grows t channels (insert_measurement m db))

-- The database with the record of a page in the ledger.
abbrev with_row : ℕ → Prepared → Fields → Db → Db
with_row d p row db = record db {
  local_history_records =
      record { device_id = d; sequence = p.sequence; captured_at = p.captured_at; exported = row }
      ∷ db.local_history_records;
}

with_row-Grows : (d : ℕ) (p : Prepared) (row : Fields) (db : Db) → Grows db (with_row d p row db)
with_row-Grows d p row db =
    (refl, refl, λ e q r. or_true (d == e && p.sequence == q) (recorded e q db) r)
  where
    or_true : (a b : Bool) → b ≡ true → (a || b) ≡ true
    or_true a b h = ground (arith, h)

recorded_now :
    (d : ℕ) (p : Prepared) (row : Fields) (db : Db)
    → recorded d p.sequence (with_row d p row db) ≡ true
recorded_now d p row db = ground (arith, eqb_iff d d, eqb_iff p.sequence p.sequence)

-- The record has passed its checks, and the ledger has its sequence.
abbrev pub IsRecorded : ℕ → List DeviceChannel → Db → Fields → Type 0
IsRecorded d channels db row =
    (p : Prepared) × (prepare_record channels row ≡ ok p) × (recorded d p.sequence db ≡ true)

All-IsRecorded_later :
    (d : ℕ) (channels : List DeviceChannel) (db db' : Db) (rows : List Fields)
    → Grows db db'
    → All (IsRecorded d channels db) rows
    → All (IsRecorded d channels db') rows
All-IsRecorded_later d channels db db' [] g h = tt
All-IsRecorded_later d channels db db' (row ∷ rows) g h =
    ((h.0.0, h.0.1, g.2 d h.0.0.sequence h.0.2), All-IsRecorded_later d channels db db' rows g h.1)

module _ {Figures : Type 0} (calendar : Calendar)
    (figures_of : List PowerMeasurement → Figures) where
  write_record-Grows :
      (d today : ℕ) (row : Fields) (p : Prepared) (i : Import)
      → Grows i.db (write_record calendar figures_of d today row p i).db
        × (recorded d p.sequence (write_record calendar figures_of d today row p i).db ≡ true)
  unfolding write_record
  write_record-Grows d today row p i = elim (Bool-cases (recorded d p.sequence i.db)) [
    | inl old ↦ rw old ((refl, refl, λ e q r. r), old)
    | inr new ↦ rw new (grown, grown_now)
  ]
    where
      base : Db
      base = with_row d p row i.db

      later : Grows base (insert_measurements p.captured_at p.channels base)
      later = insert_measurements-Grows p.captured_at p.channels base

      grown : Grows i.db (insert_measurements p.captured_at p.channels base)
      grown =
          Grows-trans i.db base (insert_measurements p.captured_at p.channels base)
            (with_row-Grows d p row i.db) later

      grown_now : recorded d p.sequence (insert_measurements p.captured_at p.channels base) ≡ true
      grown_now = later.2 d p.sequence (recorded_now d p row i.db)

  write_record_old :
      (d today : ℕ) (row : Fields) (p : Prepared) (i : Import)
      → recorded d p.sequence i.db ≡ true
      → write_record calendar figures_of d today row p i ≡ i
  unfolding write_record
  write_record_old d today row p i h = rw h

  pub import_records-Recorded :
      (d today : ℕ) (channels : List DeviceChannel) (rows : List Fields) (i j : Import)
      → import_records calendar figures_of d today channels rows i ≡ ok j
      → Grows i.db j.db × All (IsRecorded d channels j.db) rows
  unfolding import_records
  import_records-Recorded d today channels [] i j h =
      (subst (λ (k : Import). Grows i.db k.db) (ok_injective i j h) (refl, refl, λ e q r. r), tt)
  import_records-Recorded d today channels (row ∷ rows) i j h =
      let (p, e, k) = >>=-eq-ok (prepare_record channels row) _ h in
      let i' = write_record calendar figures_of d today row p i in
      let (grows, now) = write_record-Grows d today row p i in
      let (more, rest) = import_records-Recorded d today channels rows i' j k in
      (Grows-trans i.db i'.db j.db grows more, ((p, e, more.2 d p.sequence now), rest))

  -- A page that the ledger has already changes nothing.
  pub import_records_replayed :
      (d today : ℕ) (channels : List DeviceChannel) (rows : List Fields) (i : Import)
      → All (IsRecorded d channels i.db) rows
      → import_records calendar figures_of d today channels rows i ≡ ok i
  unfolding import_records
  import_records_replayed d today channels [] i h = refl
  import_records_replayed d today channels (row ∷ rows) i ((p, e, old), rest) =
      rw (e, write_record_old d today row p i old)
        (import_records_replayed d today channels rows i rest)
