-- ===== src/HistoryRecovery.antt =====
-- app/local_history_recovery.py: what a page of a device's history buffer and its acknowledgement
-- must look like. A cursor is a sequence number or 0, as `schedule` checks.
pub mod Pages
mod Tests
pub mod Records
pub mod Persist
pub mod Recover
pub mod Coordinator
use Prim.Native.String.{◌++◌ as str_append}
use smart_monitor_back_end.Base.{
  ℕ, String, Bool, true, false, not, ◌&&◌, Option, none, some, List, [], ◌∷◌, ltb, leb, eqb, length,
  if◌then◌else◌, ◌==◌, nat_eq, string_eq,
}
use smart_monitor_back_end.Base.Http.{
  Result, ok, err, history_recovery_error, raise_if, ◌>>=◌, ◌>>◌,
}
use smart_monitor_back_end.Base.Json.{
  pos, finite, Json, boolean, integer, float, Fields, get_field, as_object, as_array, as_boolean,
  is_text, elements,
}
use smart_monitor_back_end.Base.Text.{str_ℕ}

abbrev pub history_page_limit : ℕ
history_page_limit = 2

pub record HistoryRecoveryRequest : Type 0 where
  pub mqtt_device_id : String
  pub device_uid : String
  pub acknowledged_through_sequence : ℕ
  pub newest_sequence : ℕ
  pub recovery_marker : ℕ × ℕ

pub record HistoryPage : Type 0 where
  pub records : List Fields
  pub next_cursor : ℕ
  pub has_more : Bool

-- `if b: raise HistoryRecoveryError(message)`, and the same for a value of another type
abbrev pub recovery_if : Bool → String → Result (Unit {0})
recovery_if b message = raise_if b (history_recovery_error message)

abbrev pub or_recovery {ℓ} : {A : Type ℓ} → Option A → String → Result A
or_recovery none message = err (history_recovery_error message)
or_recovery (some a) message = ok a

-- The number of a value of type int that is at least `least`.
abbrev pub at_least : ℕ → Json → Option ℕ
at_least least (integer (pos n)) = if leb least n then some n else none
at_least least _ = none

-- _positive_int
abbrev pub positive_int : String → Json → Result ℕ
positive_int field_name value =
    or_recovery (at_least 1 value) (str_append field_name " must be a positive integer")

-- response.get("result") == "ack", for a response that is an object
abbrev pub acknowledged : Json → Option Fields
acknowledged response = elim (as_object response) [
  | none ↦ none
  | some fields ↦ if is_text "ack" (get_field "result" fields) then some fields else none
]

-- the loop over the records, with the last sequence
unfoldable pub check_records : ℕ → List Json → Result (List Fields × ℕ)
check_records previous_sequence [] = ok ([], previous_sequence)
check_records previous_sequence (r ∷ rs) = do
  row ← or_recovery (as_object r) "history record must be an object"
  sequence ← positive_int "sequence" (get_field "sequence" row)
  recovery_if (leb sequence previous_sequence) "history sequences are not ordered"
  captured_at ← positive_int "captured_at" (get_field "captured_at" row)
  (rows, last) ← check_records sequence rs
  ok (row ∷ rows, last)

abbrev pub none_left : List Fields → Bool
none_left [] = true
none_left (r ∷ rs) = false

-- returned_count, an int that is the length of the list
abbrev pub counts : ℕ → Json → Bool
counts n (integer (pos m)) = m == n
counts n _ = false

-- the tests after the loop
abbrev pub check_cursor : ℕ → ℕ → Bool → List Fields × ℕ → Result HistoryPage
check_cursor after_sequence next_cursor has_more (rows, previous_sequence) = do
  recovery_if (not (none_left rows) && not (next_cursor == previous_sequence))
      "history cursor does not match the page"
  recovery_if (none_left rows && not (next_cursor == after_sequence))
      "empty history page advanced the cursor"
  recovery_if (has_more && none_left rows) "empty history page cannot have more data"
  ok (record { records = rows; next_cursor = next_cursor; has_more = has_more })

unfoldable pub parse_history_page : Json → ℕ → Result HistoryPage
unfolding check_records
parse_history_page response after_sequence = do
  fields ← or_recovery (acknowledged response) "get_history was not acknowledged"
  dat ← or_recovery (as_object (get_field "data" fields)) "get_history data is missing"
  records ← or_recovery (as_array (get_field "records" dat)) "history records must be a list"
  recovery_if (ltb history_page_limit (length (elements records)))
      "history page exceeds the MQTT budget"
  recovery_if (not (counts (length (elements records)) (get_field "returned_count" dat)))
      "history returned_count is inconsistent"
  next_cursor ←
      or_recovery (at_least after_sequence (get_field "next_cursor" dat))
        "history next_cursor is invalid"
  has_more ← or_recovery (as_boolean (get_field "has_more" dat)) "history has_more is invalid"
  checked ← check_records after_sequence (elements records)
  check_cursor after_sequence next_cursor has_more checked

-- value == expected: Python's equality holds across int, bool and float. A float is known by its
-- `repr`, which is "n.0" for an integer below 10 ** 16.
unfoldable pub equals_int : ℕ → Json → Bool
unfolding str_ℕ
equals_int expected (integer (pos n)) = n == expected
equals_int expected (boolean b) = if b then expected == 1 else expected == 0
equals_int expected (float (finite s)) = s == str_append (str_ℕ expected) ".0"
equals_int expected _ = false

unfoldable pub validate_history_ack : Json → ℕ → Result (Unit {0})
unfolding equals_int
validate_history_ack response expected_sequence = do
  fields ← or_recovery (acknowledged response) "ack_history was not acknowledged"
  dat ← or_recovery (as_object (get_field "data" fields)) "ack_history data is missing"
  recovery_if (not (equals_int expected_sequence (get_field "through_sequence" dat)))
      "ack_history confirmed another sequence"
