-- ===== src/HistoryRecovery/Recover/Tests.antt =====
-- The theorem on the end of a recovery, at a device whose record 1 is left until it is acknowledged.
use smart_monitor_back_end.Base.{
  ℕ, zero, suc, ◌+◌, ◌≡◌, refl, Bool, true, false, List, [], ◌∷◌, arith, length,
}
use smart_monitor_back_end.Base.Http.{Result, ok}
use smart_monitor_back_end.Base.Json.{
  pos, Json, boolean, integer, text, array, object, Items, item, end, Fields, field, closed,
}
use smart_monitor_back_end.HistoryRecovery.{
  HistoryPage, HistoryRecoveryRequest, parse_history_page, validate_history_ack, check_records,
}
use smart_monitor_back_end.HistoryRecovery.Recover.{
  Command, get_history, ack_history, World, recover,
}
use smart_monitor_back_end.HistoryRecovery.Recover.Complete.{Pages, Answers, recover_completes}

abbrev row : Fields
row = field "sequence" (integer (pos 1)) (field "captured_at" (integer (pos 1000)) closed)

abbrev page_json : Items → ℕ → ℕ → Json
page_json records count next_cursor = object (
    field "result" (text "ack") (
      field "data"
        (object (
          field "records" (array records) (
            field "returned_count" (integer (pos count)) (
              field "next_cursor" (integer (pos next_cursor))
                (field "has_more" (boolean false) closed)))))
        closed))

abbrev acked : ℕ → Json
acked n = object (
    field "result" (text "ack")
      (field "data" (object (field "through_sequence" (integer (pos n)) closed)) closed))

abbrev sender : Command → Bool → Result Json × Bool
sender (get_history zero) true = (ok (page_json (item (object row) end) 1 1), true)
sender (get_history zero) false = (ok (page_json end 0 0), false)
sender (get_history (suc n)) d = (ok (page_json end 0 (suc n)), d)
sender (ack_history zero) d = (ok (acked 0), d)
sender (ack_history (suc n)) d = (ok (acked (suc n)), false)

abbrev left : Bool → ℕ → ℕ
left true zero = 1
left false zero = 0
left d (suc n) = 0

-- a repository that counts
abbrev counting : List Fields → ℕ → Result ℕ × ℕ
counting rows n = (ok (length rows), n + length rows)

abbrev Always : ℕ → Type 0
Always n = Unit {0}

parsed_empty :
    (n : ℕ)
    → parse_history_page (page_json end 0 n) n
      ≡ ok (record { records = []; next_cursor = n; has_more = false })
unfolding parse_history_page check_records
parsed_empty n = ground arith

parsed_row :
    parse_history_page (page_json (item (object row) end) 1 1) 0
    ≡ ok (record { records = row ∷ []; next_cursor = 1; has_more = false })
unfolding parse_history_page
parsed_row = refl

validated : (n : ℕ) → validate_history_ack (acked n) n ≡ ok tt
unfolding validate_history_ack
validated n = ground arith

empty_page :
    (l : ℕ → ℕ) (n : ℕ)
    → l n ≡ 0
    → Pages l n (record { records = []; next_cursor = n; has_more = false })
empty_page l n h = record { counted = omega arith; last = λ _. h; more = λ m. cc }

sender-Answers : Answers sender counting left Always
sender-Answers = record { gives = gives; acknowledges = acknowledges }
  where
    gives :
        (c : ℕ) (d : Bool)
        → (response : Json) × (page : HistoryPage) × (sender (get_history c) d ≡ (ok response, d))
          × (parse_history_page response c ≡ ok page)
          × Pages (left d) c page
          × ((s : ℕ)
              → Always s
              → (count : ℕ) × (s' : ℕ) × (counting page.records s ≡ (ok count, s')) × Always s')
    gives zero true = (
      page_json (item (object row) end) 1 1,
      record { records = row ∷ []; next_cursor = 1; has_more = false },
      refl,
      parsed_row,
      record { counted = omega arith; last = λ _. refl; more = λ m. cc },
      λ s r. (1, s + 1, refl, tt),
    )
    gives zero false = (
      page_json end 0 0,
      record { records = []; next_cursor = 0; has_more = false },
      refl,
      parsed_empty 0,
      empty_page (left false) 0 refl,
      λ s r. (0, s + 0, refl, tt),
    )
    gives (suc n) d = (
      page_json end 0 (suc n),
      record { records = []; next_cursor = suc n; has_more = false },
      refl,
      parsed_empty (suc n),
      empty_page (left d) (suc n) refl,
      λ s r. (0, s + 0, refl, tt),
    )

    acknowledges :
        (n : ℕ) (d : Bool)
        → (response : Json) × (d' : Bool) × (sender (ack_history n) d ≡ (ok response, d'))
          × (validate_history_ack response n ≡ ok tt)
          × (left d' n ≡ left d n)
    acknowledges zero d = (acked 0, d, refl, validated 0, refl)
    acknowledges (suc n) d = (acked (suc n), false, refl, validated (suc n), refl)

abbrev request : HistoryRecoveryRequest
request = record {
  mqtt_device_id = "meter-7";
  device_uid = "SM-0123456789AB";
  acknowledged_through_sequence = 0;
  newest_sequence = 1;
  recovery_marker = (1, 1);
}

recover_completes_example :
    (imported : ℕ) × (cursor : ℕ) × (w' : World Bool ℕ) × (recover sender counting request
        (record { device = true; store = 0 })
      ≡ (ok (imported, cursor), w'))
    × (left w'.device cursor ≡ 0)
recover_completes_example =
    recover_completes sender counting left Always sender-Answers request
      (record { device = true; store = 0 }) (omega arith) tt
