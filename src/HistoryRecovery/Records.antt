-- ===== src/HistoryRecovery/Records.antt =====
-- app/local_history_recovery.py: the checks of one record of the history, before anything is written.
use smart_monitor_back_end.Base.{
  ℕ, ◌*◌, String, Bool, true, false, not, ◌&&◌, ◌||◌, Option, List, [], ◌∷◌, ltb, leb, any, first,
  keep, if◌then◌else◌, ◌==◌, nat_eq, string_eq, pair_eq, option_eq,
}
use Prim.Native.String.{◌++◌ as str_append}
use smart_monitor_back_end.Base.Http.{
  Result, ok, err, history_recovery_error, data_error, raise_if, ◌>>=◌, ◌>>◌,
}
use smart_monitor_back_end.Base.Json.{
  finite, not_finite, Json, null, boolean, integer, float, text, array, object, Items, item, end,
  Fields, field, closed, get_field, has_field, as_object,
}
use smart_monitor_back_end.Database.{Db, DeviceChannel}
use smart_monitor_back_end.MeasurementContract.{
  float_of, Checked, accepted, rejected, Values, electrical_field_quality_keys,
  normalize_electrical_measurement,
}
use smart_monitor_back_end.HistoryRecovery.{or_recovery, recovery_if, positive_int}

abbrev pub power_channel_keys : List String
power_channel_keys = "power_1" ∷ "power_2" ∷ "power_3" ∷ "power_4" ∷ []

-- The test on a value that is not None, with the errors of `float(value)`.
abbrev pub check_historical : String → Json → Result (Unit {0})
check_historical field_name (integer i) = float_of i >>= λ n. ok tt
check_historical field_name (float (finite s)) = ok tt
check_historical field_name _ =
    err (history_recovery_error (str_append "invalid historical value: " field_name))

-- The entries of `contract_input` for one field. `float()` twice is `float()` once, so that the
-- number is entered as it is.
abbrev pub contract_entries : String → String → Json → Fields → Result Fields
contract_entries field_name quality_name null rest =
    ok (field field_name null (field quality_name (text "unavailable") rest))
contract_entries field_name quality_name value rest =
    check_historical field_name value
    >> ok (field field_name value (field quality_name (text "ok") rest))

abbrev pub contract_fields : List (String × String) → Fields → Fields → Result Fields
contract_fields [] values contract_input = ok contract_input
contract_fields ((field_name, quality_name) ∷ keys) values contract_input = do
  more ← contract_entries field_name quality_name (get_field field_name values) contract_input
  contract_fields keys values more

abbrev pub accepted_values : Checked Values → Result Values
accepted_values (accepted values) = ok values
accepted_values (rejected reason) =
    err (history_recovery_error (str_append "historical energy contract rejected: " reason))

-- _normalize_history_energy
unfoldable pub normalize_history_energy : Json → Result Values
unfolding normalize_electrical_measurement float_of
normalize_history_energy value = do
  values ← or_recovery (as_object value) "energy channel must be an object"
  contract_input ←
      contract_fields electrical_field_quality_keys values (field "freshness" (text "fresh") closed)
  normalized ← normalize_electrical_measurement contract_input
  accepted_values normalized

unfoldable mutual
  -- json.dumps(…, allow_nan=False) raises ValueError
  pub has_nan : Json → Bool
  has_nan null = false
  has_nan (boolean b) = false
  has_nan (integer i) = false
  has_nan (float (finite s)) = false
  has_nan (float not_finite) = true
  has_nan (text s) = false
  has_nan (array xs) = has_nan_items xs
  has_nan (object fs) = has_nan_fields fs

  pub has_nan_items : Items → Bool
  has_nan_items end = false
  has_nan_items (item x xs) = has_nan x || has_nan_items xs

  pub has_nan_fields : Fields → Bool
  has_nan_fields closed = false
  has_nan_fields (field k v fs) = has_nan v || has_nan_fields fs

-- `energy_channels.items()`: a key that occurs twice has its last value at its first place.
abbrev pub entries_of : Fields → List String → Fields → List (String × Json)
entries_of whole seen closed = []
entries_of whole seen (field k v fs) =
    let rest = entries_of whole (k ∷ seen) fs in
    if any (λ s. s == k) seen then rest else (k, get_field k whole) ∷ rest

-- record.get("energy_channels", {})
abbrev pub energy_channels_of : Fields → Json
energy_channels_of row =
    if has_field "energy_channels" row then get_field "energy_channels" row else object closed

abbrev pub is_power_channel_key : String → Bool
is_power_channel_key channel_key = any (λ k. k == channel_key) power_channel_keys

abbrev pub channel_rows : ℕ → Db → List DeviceChannel
channel_rows device_id db =
    keep (λ c. c.device_id == device_id && is_power_channel_key c.channel_key) db.channels

-- channels.get(channel_key)
abbrev pub channel_of : String → List DeviceChannel → Option DeviceChannel
channel_of channel_key channels = first (λ c. c.channel_key == channel_key) channels

unfoldable pub prepare_channels :
    List DeviceChannel → List (String × Json) → Result (List (ℕ × Values))
unfolding normalize_history_energy
prepare_channels channels [] = ok []
prepare_channels channels ((channel_key, energy_values) ∷ entries) = do
  recovery_if (not (is_power_channel_key channel_key)) "unknown historical channel"
  channel ←
      or_recovery (channel_of channel_key channels)
        (str_append "historical channel is not configured: " channel_key)
  normalized ← normalize_history_energy energy_values
  prepared ← prepare_channels channels entries
  ok ((channel.id, normalized) ∷ prepared)

-- The last second of the year 9999, the last that `datetime.fromtimestamp` takes.
abbrev pub last_timestamp : ℕ
last_timestamp = 253402300799

-- 2 ** 63, the first number past a BIGINT
abbrev pub bigint_end : ℕ
bigint_end = 9223372036854775808

pub record Prepared : Type 0 where
  pub sequence : ℕ
  pub captured_at : ℕ
  pub channels : List (ℕ × Values)

-- The checks of one record, before anything is written.
unfoldable pub prepare_record : List DeviceChannel → Fields → Result Prepared
unfolding prepare_channels has_nan
prepare_record channels row = do
  sequence ← positive_int "sequence" (get_field "sequence" row)
  captured_epoch ← positive_int "captured_at" (get_field "captured_at" row)
  recovery_if (ltb last_timestamp captured_epoch) "historical timestamp is out of range"
  recovery_if (has_nan (object row)) "historical record is not valid JSON"
  energy ← or_recovery (as_object (energy_channels_of row)) "energy_channels must be an object"
  prepared ← prepare_channels channels (entries_of energy [] energy)
  raise_if (leb bigint_end sequence) data_error
  ok (record { sequence = sequence; captured_at = captured_epoch * 1000000; channels = prepared })
