-- ===== src/Base/Json.antt =====
-- The values that `json.loads` gives, and the tests that the program makes on them. A float is known
-- by its text when it is finite; NaN and the infinities are the other float values.
use Prim.Native.Nat.{ℕ}
use Prim.Native.String.{String}
use mathlib.Core.Bool.{Bool, true, false}
use mathlib.Core.Option.{Option, none, some}
use mathlib.Core.List.{List, [], ◌∷◌}
use smart_monitor_back_end.Base.Tests.{if◌then◌else◌}
use smart_monitor_back_end.Base.Keys.{◌==◌, string_eq}

pub data ℤ : Type 0 where
  pos negsuc : ℕ → ℤ

pub data Float : Type 0 where
  finite : String → Float
  not_finite : Float

-- what `float()` makes of a number of JSON: the nearest double, or the finite float itself
pub data Number : Type 0 where
  whole : ℤ → Number
  decimal : String → Number

mutual
  pub data Json : Type 0 where
    null : Json
    boolean : Bool → Json
    integer : ℤ → Json
    float : Float → Json
    text : String → Json
    array : Items → Json
    object : Fields → Json

  pub data Items : Type 0 where
    end : Items
    item : Json → Items → Items

  pub data Fields : Type 0 where
    closed : Fields
    field : String → Json → Fields → Fields

-- payload.get(key), with None for a missing key
abbrev pub get_field : String → Fields → Json
get_field key closed = null
get_field key (field k v fs) = let rest = get_field key fs in if k == key then v else rest

-- key in payload
abbrev pub has_field : String → Fields → Bool
has_field key closed = false
has_field key (field k v fs) = let rest = has_field key fs in if k == key then true else rest

abbrev pub is_null : Json → Bool
is_null null = true
is_null _ = false

-- the text, for a value that is a str
abbrev pub as_text : Json → Option String
as_text (text s) = some s
as_text _ = none

abbrev pub as_object : Json → Option Fields
as_object (object fs) = some fs
as_object _ = none

-- type(value) is int
abbrev pub as_integer : Json → Option ℤ
as_integer (integer i) = some i
as_integer _ = none

abbrev pub as_array : Json → Option Items
as_array (array xs) = some xs
as_array _ = none

-- type(value) is bool
abbrev pub as_boolean : Json → Option Bool
as_boolean (boolean b) = some b
as_boolean _ = none

-- value is True
abbrev pub is_true : Json → Bool
is_true (boolean b) = b
is_true _ = false

-- the value is the given text
abbrev pub is_text : String → Json → Bool
is_text s (text t) = t == s
is_text s _ = false

abbrev pub elements : Items → List Json
elements end = []
elements (item x xs) = x ∷ elements xs
