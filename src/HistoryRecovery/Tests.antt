-- ===== src/HistoryRecovery/Tests.antt =====
-- The theorems on the recovery of the history, at a device with one record in its buffer.
use smart_monitor_back_end.Base.{
  ℕ, zero, suc, ◌≡◌, ◌<◌, ◌≤◌, ◌⊎◌, inl, refl, sym, subst, ◌∙◌, ◌+◌, ◌*◌, ◌/◌, Bool, true, false,
  ◌&&◌, none, some, List, [], ◌∷◌, arith, leb, ◌==◌, nat_eq, eqb_iff, if◌then◌else◌, length,
}
use smart_monitor_back_end.Base.Http.{Result, ok, err, runtime_error, ok_injective}
use smart_monitor_back_end.Base.Json.{
  pos, Json, boolean, integer, float, finite, text, array, object, item, end, Fields, field, closed,
}
use smart_monitor_back_end.Database.{PowerMeasurement}
use smart_monitor_back_end.MeasurementContract.{float_overflow}
use smart_monitor_back_end.PowerSummary.{Calendar}
use smart_monitor_back_end.HistoryRecovery.{
  HistoryPage, HistoryRecoveryRequest, parse_history_page, validate_history_ack,
}
use smart_monitor_back_end.HistoryRecovery.Pages.{IsPage, parse_history_page-IsPage}
use smart_monitor_back_end.HistoryRecovery.Coordinator.{
  Event, reserves, puts, starts, gets, succeeds, init, run, status,
}
use smart_monitor_back_end.HistoryRecovery.Coordinator.Serial.{Serial, run-Serial}
use smart_monitor_back_end.HistoryRecovery.Recover.{Command, get_history, ack_history, recover}
use smart_monitor_back_end.HistoryRecovery.Recover.Lossless.{Holds, KeepsBuffer}
use smart_monitor_back_end.HistoryRecovery.Persist.{HistoryStore, persist_page}
use smart_monitor_back_end.HistoryRecovery.Persist.Replays.{persist_page_replayed}
use smart_monitor_back_end.HistoryRecovery.Persist.Accepted.{in_ledger, recover_lossless}

abbrev row : Fields
row = field "sequence" (integer (pos 5)) (
    field "captured_at" (integer (pos 1000)) (
      field "energy_channels"
        (object (
          field "power_1"
            (object (
              field "voltage_v" (float (finite "230.5"))
                (field "current_a" (integer (pos 2)) (field "power_w" (integer (pos 460)) closed))))
            closed))
        closed))

abbrev one_page : Json
one_page = object (
    field "result" (text "ack") (
      field "data"
        (object (
          field "records" (array (item (object row) end)) (
            field "returned_count" (integer (pos 1))
              (field "next_cursor" (integer (pos 5)) (field "has_more" (boolean false) closed)))))
        closed))

abbrev page : HistoryPage
page = record { records = row ∷ []; next_cursor = 5; has_more = false }

parsed : parse_history_page one_page 0 ≡ ok page
unfolding parse_history_page
parsed = refl

parse_history_page-IsPage_example : IsPage 0 page
parse_history_page-IsPage_example = parse_history_page-IsPage one_page 0 page parsed

abbrev acked : ℕ → Json
acked n = object (
    field "result" (text "ack")
      (field "data" (object (field "through_sequence" (integer (pos n)) closed)) closed))

-- The state says whether the record is still there.
abbrev sender : Command → Bool → Result Json × Bool
sender (get_history zero) true = (ok one_page, true)
sender (get_history zero) false = (err (runtime_error "timeout"), false)
sender (get_history (suc n)) d = (err (runtime_error "timeout"), d)
sender (ack_history n) d = (ok (acked n), if leb 5 n then false else d)

abbrev buffered : Bool → ℕ → Bool
buffered d q = d && q == 5

sender-KeepsBuffer : KeepsBuffer sender buffered
sender-KeepsBuffer = record { get_keeps = get_keeps; get_page = get_page; ack_keeps = ack_keeps }
  where
    get_keeps :
        (c q : ℕ) (d : Bool) → buffered d q ≡ true → buffered (sender (get_history c) d).1 q ≡ true
    get_keeps zero q true h = h
    get_keeps zero q false h = cc
    get_keeps (suc c) q d h = h

    get_page :
        (c q : ℕ) (d : Bool) (response : Json) (p : HistoryPage)
        → (sender (get_history c) d).0 ≡ ok response
        → parse_history_page response c ≡ ok p
        → buffered d q ≡ true
        → c < q
        → q ≤ p.next_cursor
        → Holds q p.records
    get_page zero q true response p r h b _ _ =
        let same = ok_injective one_page response r in
        let read = subst (λ j. parse_history_page j 0 ≡ ok p) (sym same) h in
        subst (λ (o : HistoryPage). Holds q o.records) (ok_injective page p (sym parsed ∙ read))
          (inl (sym ((eqb_iff q 5).0 b)))
    get_page zero q false response p r h b _ _ = cc
    get_page (suc c) q d response p r h b _ _ = absurd (ground (arith, r))

    ack_keeps :
        (n q : ℕ) (d : Bool)
        → buffered d q ≡ true
        → n < q
        → buffered (sender (ack_history n) d).1 q ≡ true
    ack_keeps n q true h l = ground (arith, h, eqb_iff q 5)
    ack_keeps n q false h l = cc

-- Days of 24 hours in UTC; the figures of a summary are its count of samples.
abbrev utc : Calendar
utc = record {
  local_date = λ t. t / 86400000000;
  day_utc_bounds = λ d. (d * 86400000000, (d + 1) * 86400000000);
}

abbrev samples : List PowerMeasurement → ℕ
samples ms = length ms

abbrev empty_store : HistoryStore ℕ
empty_store = record {
  db = record {
    users = [];
    devices =
        record {
          id = 7;
          device_uid = "SM-0123456789AB";
          mqtt_device_id = some "meter-7";
          name = none;
          is_active = true;
          created_at = 0;
        }
        ∷ [];
    memberships = [];
    channels =
        record { id = 5; device_id = 7; channel_key = "power_1"; name = none; is_enabled = true }
        ∷ [];
    transfers = [];
    challenges = [];
    notices = [];
    checks = [];
    alarm_configurations = [];
    local_history_records = [];
    power_measurements = [];
    next_device_id = 8;
    next_channel_id = 6;
    next_transfer_id = 1;
    next_notice_id = 1;
  };
  summaries = [];
}

abbrev persist : List Fields → HistoryStore ℕ → Result ℕ × HistoryStore ℕ
persist = persist_page utc samples false 90000000000 "meter-7" "SM-0123456789AB"

-- The store after the page, of yesterday.
stored : HistoryStore ℕ
stored = (persist (row ∷ []) empty_store).1

storing : persist (row ∷ []) empty_store ≡ (ok 1, stored)
unfolding persist_page stored float_overflow
storing = refl

summarised : stored.summaries ≡ record { channel_id = 5; summary_date = 0; figures = 1 } ∷ []
unfolding persist_page stored float_overflow
summarised = refl

persist_page_replayed_example :
    persist_page utc samples false 95000000000 "meter-7" "SM-0123456789AB" (row ∷ []) stored
    ≡ (ok 0, stored)
persist_page_replayed_example =
    persist_page_replayed utc samples false 90000000000 95000000000 "meter-7" "SM-0123456789AB"
      (row ∷ []) empty_store stored 1 storing

abbrev request : HistoryRecoveryRequest
request = record {
  mqtt_device_id = "meter-7";
  device_uid = "SM-0123456789AB";
  acknowledged_through_sequence = 0;
  newest_sequence = 5;
  recovery_marker = (1, 1);
}

recovering :
    recover sender persist request (record { device = true; store = empty_store })
    ≡ (ok (1, 5), record { device = false; store = stored })
unfolding recover persist_page stored parse_history_page validate_history_ack float_overflow
recovering = refl

recover_lossless_example :
    (buffered false 5 ≡ true)
    ⊎ (in_ledger utc samples false 90000000000 "meter-7" "SM-0123456789AB" stored 5 ≡ true)
recover_lossless_example =
    recover_lossless utc samples false 90000000000 "meter-7" "SM-0123456789AB" sender buffered
      request (record { device = true; store = empty_store })
      (record { device = false; store = stored }) (ok (1, 5)) 5 sender-KeepsBuffer refl
      (omega arith) recovering

abbrev started_events : List Event
started_events =
    starts ∷ reserves 0 request ∷ reserves 5 request ∷ puts 0 ∷ gets ∷ succeeds 1 5 ∷ []

run-Serial_example : Serial (run started_events init)
run-Serial_example = run-Serial started_events

-- The second request of the device was refused, and the first one has succeeded.
run_counts : status (run started_events init) ≡ (true, 0, 1, 1, 0, 1)
unfolding run
run_counts = refl
