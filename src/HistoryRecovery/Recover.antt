-- ===== src/HistoryRecovery/Recover.antt =====
-- app/local_history_recovery.py, `_recover`: the loop over the pages of one device. The device
-- behind `command_sender` is a parameter with an unknown state; the repository is one too, since the
-- coordinator is given it. A call of either may raise, after it has changed its state.
pub mod Lossless
pub mod Complete
mod Tests
use smart_monitor_back_end.Base.{ℕ, zero, suc, ◌+◌, Bool, true, false, List, [], ◌∷◌}
use smart_monitor_back_end.Base.Http.{Result, ok, err, history_recovery_error}
use smart_monitor_back_end.Base.Json.{Json, Fields}
use smart_monitor_back_end.HistoryRecovery.{
  HistoryPage, HistoryRecoveryRequest, parse_history_page, validate_history_ack,
}

abbrev pub history_max_pages_per_run : ℕ
history_max_pages_per_run = 256

-- the commands with the parameter that varies: `after_sequence` and `through_sequence`
pub data Command : Type 0 where
  get_history ack_history : ℕ → Command

pub record World (D S : Type 0) : Type 0 where
  pub device : D
  pub store : S

-- Code that may raise, over the device and the store.
infixl 5 ◌>>=◌
abbrev pub ◌>>=◌ :
    {D S A B : Type 0}
    → (World D S → Result A × World D S)
    → (A → World D S → Result B × World D S)
    → World D S
    → Result B × World D S
◌>>=◌ m f w = let (result, w') = m w in elim result [ err e ↦ (err e, w') | ok a ↦ f a w' ]

abbrev pub lift : {D S A : Type 0} → Result A → World D S → Result A × World D S
lift r w = (r, w)

module _ {D S : Type 0} (command_sender : Command → D → Result Json × D)
    (persist_page : List Fields → S → Result ℕ × S) where
  abbrev pub Run : Type 0
  Run = World D S → Result (ℕ × ℕ) × World D S

  abbrev pub send : Command → World D S → Result Json × World D S
  send command w =
      let (response, device) = command_sender command w.device in
      (response, record w { device = device })

  abbrev pub persist : List Fields → World D S → Result ℕ × World D S
  persist records w =
      let (count, store) = persist_page records w.store in (count, record w { store = store })

  -- `if not page.has_more: break`; `next` is the next round
  abbrev pub go_on : Bool → (ℕ → ℕ → Run) → ℕ → ℕ → Run
  go_on true next imported_total cursor = next cursor imported_total
  go_on false next imported_total cursor = lift (ok (imported_total, cursor))

  abbrev pub after_ack : (ℕ → ℕ → Run) → ℕ → HistoryPage → Run
  after_ack next imported_total page = go_on page.has_more next imported_total page.next_cursor

  abbrev pub confirm : (ℕ → ℕ → Run) → ℕ → HistoryPage → Json → Run
  confirm next imported_total page ack_response = do
    checked ← lift (validate_history_ack ack_response page.next_cursor)
    after_ack next imported_total page

  abbrev pub acknowledge : (ℕ → ℕ → Run) → ℕ → HistoryPage → ℕ → Run
  acknowledge next imported_total page count =
      send (ack_history page.next_cursor) >>= confirm next (imported_total + count) page

  abbrev pub store_records : (ℕ → ℕ → Run) → ℕ → HistoryPage → Run
  store_records next imported_total page =
      persist page.records >>= acknowledge next imported_total page

  -- `if not page.records: break`
  abbrev pub on_records : (ℕ → ℕ → Run) → ℕ → ℕ → HistoryPage → List Fields → Run
  on_records next cursor imported_total page [] = lift (ok (imported_total, cursor))
  on_records next cursor imported_total page (r ∷ rs) = store_records next imported_total page

  abbrev pub on_page : (ℕ → ℕ → Run) → ℕ → ℕ → HistoryPage → Run
  on_page next cursor imported_total page = on_records next cursor imported_total page page.records

  abbrev pub on_response : (ℕ → ℕ → Run) → ℕ → ℕ → Json → Run
  on_response next cursor imported_total response =
      lift (parse_history_page response cursor) >>= on_page next cursor imported_total

  -- The rounds that are left, the cursor and `imported_total`; the result is the last two.
  unfoldable pub recover_pages : ℕ → ℕ → ℕ → Run
  recover_pages zero cursor imported_total =
      lift (err (history_recovery_error "history recovery exceeded the bounded page count"))
  recover_pages (suc rounds) cursor imported_total =
      send (get_history cursor) >>= on_response (recover_pages rounds) cursor imported_total

  unfoldable pub recover : HistoryRecoveryRequest → Run
  unfolding recover_pages
  recover request = recover_pages history_max_pages_per_run request.acknowledged_through_sequence 0
