-- ===== src/HistoryRecovery/Recover/Lossless.antt =====
-- app/local_history_recovery.py: whatever the device answers and whenever a call raises, no record
-- of the buffer is lost.
use smart_monitor_back_end.Base.{
  ℕ, zero, suc, ◌+◌, ◌≡◌, ◌≤◌, ◌<◌, ◌⊎◌, inl, inr, refl, ltb, ltb→lt, ltb→ge, Bool, true, false,
  Bool-cases, List, [], ◌∷◌,
}
use smart_monitor_back_end.Base.Http.{Error, Result, ok, err}
use smart_monitor_back_end.Base.Json.{Json, Fields}
use smart_monitor_back_end.HistoryRecovery.{
  HistoryPage, HistoryRecoveryRequest, parse_history_page, validate_history_ack,
}
use smart_monitor_back_end.HistoryRecovery.Pages.{sequence_of}
use smart_monitor_back_end.HistoryRecovery.Recover.{
  Command, get_history, ack_history, World, ◌>>=◌, Run, go_on, send, lift, persist, after_ack,
  confirm, acknowledge, on_records, on_response, store_records, on_page, recover_pages, recover,
  history_max_pages_per_run,
}

-- `q` is the sequence of one of the records.
abbrev pub Holds : ℕ → List Fields → Type 0
Holds q [] = ⊥
Holds q (r ∷ rs) = (sequence_of r ≡ q) ⊎ Holds q rs

-- What the firmware promises of its buffer: reading a page removes nothing, a page has every
-- buffered record between the two cursors, and an acknowledgement removes nothing after its sequence.
pub record KeepsBuffer {D : Type 0} (command_sender : Command → D → Result Json × D)
    (buffered : D → ℕ → Bool) : Type 0 where
  pub get_keeps :
      (cursor q : ℕ) (d : D)
      → buffered d q ≡ true
      → buffered (command_sender (get_history cursor) d).1 q ≡ true
  pub get_page :
      (cursor q : ℕ) (d : D) (response : Json) (page : HistoryPage)
      → (command_sender (get_history cursor) d).0 ≡ ok response
      → parse_history_page response cursor ≡ ok page
      → buffered d q ≡ true
      → cursor < q
      → q ≤ page.next_cursor
      → Holds q page.records
  pub ack_keeps :
      (through q : ℕ) (d : D)
      → buffered d q ≡ true
      → through < q
      → buffered (command_sender (ack_history through) d).1 q ≡ true

-- What a repository promises: a record that it stored stays, and a page that it accepted is stored.
pub record StoresPages {S : Type 0} (persist_page : List Fields → S → Result ℕ × S)
    (stored : S → ℕ → Bool) : Type 0 where
  pub keeps :
      (rs : List Fields) (q : ℕ) (s : S) → stored s q ≡ true → stored (persist_page rs s).1 q ≡ true
  pub stores :
      (rs : List Fields) (q count : ℕ) (s : S)
      → (persist_page rs s).0 ≡ ok count
      → Holds q rs
      → stored (persist_page rs s).1 q ≡ true

lt_or_le : (a b : ℕ) → (a < b) ⊎ (b ≤ a)
lt_or_le a b = elim (Bool-cases (ltb a b)) [
  | inl h ↦ inl (ltb→lt a b h)
  | inr h ↦ inr (ltb→ge a b h)
]

pub Result-cases {ℓ} :
    {A : Type ℓ} (r : Result A) → ((e : Error) × (r ≡ err e)) ⊎ ((a : A) × (r ≡ ok a))
Result-cases (err e) = inl (e, refl)
Result-cases (ok a) = inr (a, refl)

-- What holds after a call that may raise, and after the code that follows a result.
pub after_call :
    {D S A B : Type 0} (Q : World D S → Type 0) (m : World D S → Result A × World D S)
    (f : A → World D S → Result B × World D S) (w : World D S)
    → ((e : Error) → (m w).0 ≡ err e → Q (m w).1)
    → ((a : A) → (m w).0 ≡ ok a → Q (f a (m w).1).1)
    → Q ((m >>= f) w).1
after_call {D} {S} {A} {B} Q m f w raised returned = go (m w).0 refl
  where
    go :
        (r : Result A)
        → (m w).0 ≡ r
        → Q
            (elim r as (λ _. Result B × World D S) [
              | err e ↦ (err e, (m w).1)
              | ok a ↦ f a (m w).1
            ]).1
    go (err e) h = raised e h
    go (ok a) h = returned a h

module _ {D S : Type 0} (command_sender : Command → D → Result Json × D)
    (persist_page : List Fields → S → Result ℕ × S) (buffered : D → ℕ → Bool)
    (stored : S → ℕ → Bool) (device : KeepsBuffer command_sender buffered)
    (repository : StoresPages persist_page stored) where
  abbrev Ahead : ℕ → ℕ → World D S → Type 0
  Ahead q cursor w = ((buffered w.device q ≡ true) × (cursor < q)) ⊎ (stored w.store q ≡ true)

  abbrev Kept : ℕ → World D S → Type 0
  Kept q w = (buffered w.device q ≡ true) ⊎ (stored w.store q ≡ true)

  Ahead-Kept : (q cursor : ℕ) (w : World D S) → Ahead q cursor w → Kept q w
  Ahead-Kept q cursor w (inl b) = inl b.0
  Ahead-Kept q cursor w (inr s) = inr s

  go_on-Kept :
      (more : Bool) (next : ℕ → ℕ → Run command_sender persist_page) (imported cursor q : ℕ)
      (w : World D S)
      → ((c i : ℕ) (v : World D S) → Ahead q c v → Kept q (next c i v).1)
      → Ahead q cursor w
      → Kept q (go_on command_sender persist_page more next imported cursor w).1
  go_on-Kept true next imported cursor q w ih h = ih cursor imported w h
  go_on-Kept false next imported cursor q w ih h = Ahead-Kept q cursor w h

  after_send_ack :
      (through q : ℕ) (w : World D S)
      → Ahead q through w
      → Ahead q through (send command_sender persist_page (ack_history through) w).1
  after_send_ack through q w (inl b) = inl (device.ack_keeps through q w.device b.0 b.1, b.1)
  after_send_ack through q w (inr s) = inr s

  acknowledge-Kept :
      (next : ℕ → ℕ → Run command_sender persist_page) (imported count q : ℕ) (page : HistoryPage)
      (w : World D S)
      → ((c i : ℕ) (v : World D S) → Ahead q c v → Kept q (next c i v).1)
      → Ahead q page.next_cursor w
      → Kept q (acknowledge command_sender persist_page next imported page count w).1
  acknowledge-Kept next imported count q page w ih h =
      let acked = after_send_ack page.next_cursor q w h in
      after_call (Kept q) (send command_sender persist_page (ack_history page.next_cursor))
        (confirm command_sender persist_page next (imported + count) page) w
        (λ e r. Ahead-Kept q page.next_cursor _ acked)
        (λ response r.
          after_call (Kept q) (lift (validate_history_ack response page.next_cursor))
            (λ checked. after_ack command_sender persist_page next (imported + count) page) _
            (λ e v. Ahead-Kept q page.next_cursor _ acked)
            (λ checked v.
              go_on-Kept page.has_more next (imported + count) page.next_cursor q _ ih acked))

  store_records-Kept :
      (next : ℕ → ℕ → Run command_sender persist_page) (imported q : ℕ) (page : HistoryPage)
      (w : World D S)
      → ((c i : ℕ) (v : World D S) → Ahead q c v → Kept q (next c i v).1)
      → (q ≤ page.next_cursor → Holds q page.records ⊎ (stored w.store q ≡ true))
      → Kept q w
      → Kept q (store_records command_sender persist_page next imported page w).1
  store_records-Kept next imported q page w ih covered kept =
      after_call (Kept q) (persist command_sender persist_page page.records)
        (acknowledge command_sender persist_page next imported page) w (λ e r. after_persist kept)
        (λ count r.
          acknowledge-Kept next imported count q page _ ih
            (ahead count r kept (lt_or_le page.next_cursor q)))
    where
      after_persist : Kept q w → Kept q (persist command_sender persist_page page.records w).1
      after_persist (inl b) = inl b
      after_persist (inr s) = inr (repository.keeps page.records q w.store s)

      in_page :
          (count : ℕ)
          → (persist_page page.records w.store).0 ≡ ok count
          → Holds q page.records ⊎ (stored w.store q ≡ true)
          → stored (persist_page page.records w.store).1 q ≡ true
      in_page count r (inl there) = repository.stores page.records q count w.store r there
      in_page count r (inr s) = repository.keeps page.records q w.store s

      ahead :
          (count : ℕ)
          → (persist_page page.records w.store).0 ≡ ok count
          → Kept q w
          → (page.next_cursor < q) ⊎ (q ≤ page.next_cursor)
          → Ahead q page.next_cursor (persist command_sender persist_page page.records w).1
      ahead count r (inr s) _ = inr (repository.keeps page.records q w.store s)
      ahead count r (inl b) (inl later) = inl (b, later)
      ahead count r (inl b) (inr within) = inr (in_page count r (covered within))

  recover_pages-Kept :
      (rounds cursor imported q : ℕ) (w : World D S)
      → Ahead q cursor w
      → Kept q (recover_pages command_sender persist_page rounds cursor imported w).1
  unfolding recover_pages
  recover_pages-Kept zero cursor imported q w h = Ahead-Kept q cursor w h
  recover_pages-Kept (suc rounds) cursor imported q w h =
      after_call (Kept q) (send command_sender persist_page (get_history cursor))
        (on_response command_sender persist_page (recover_pages command_sender persist_page rounds)
          cursor imported)
        w (λ e r. got h)
        (λ response r.
          after_call (Kept q) (lift (parse_history_page response cursor))
            (on_page command_sender persist_page (recover_pages command_sender persist_page rounds)
              cursor imported)
            _ (λ e p. got h)
            (λ page p.
              on_records-Kept page.records page refl response r p
                (λ c i v. recover_pages-Kept rounds c i q v)))
    where
      got : Ahead q cursor w → Kept q (send command_sender persist_page (get_history cursor) w).1
      got (inl b) = inl (device.get_keeps cursor q w.device b.0)
      got (inr s) = inr s

      covered :
          (response : Json) (page : HistoryPage)
          → (command_sender (get_history cursor) w.device).0 ≡ ok response
          → parse_history_page response cursor ≡ ok page
          → Ahead q cursor w
          → q ≤ page.next_cursor
          → Holds q page.records ⊎ (stored w.store q ≡ true)
      covered response page r p (inl b) within =
          inl (device.get_page cursor q w.device response page r p b.0 b.1 within)
      covered response page r p (inr s) within = inr s

      on_records-Kept :
          (rs : List Fields) (page : HistoryPage)
          → page.records ≡ rs
          → (response : Json) → (command_sender (get_history cursor) w.device).0 ≡ ok response
          → parse_history_page response cursor ≡ ok page
          → ((c i : ℕ) (v : World D S)
              → Ahead q c v
              → Kept q (recover_pages command_sender persist_page rounds c i v).1)
          → Kept q
              (on_records command_sender persist_page
                (recover_pages command_sender persist_page rounds)
                cursor
                imported
                page
                rs
                (send command_sender persist_page (get_history cursor) w).1).1
      on_records-Kept [] page e response r p ih = got h
      on_records-Kept (_ ∷ _) page e response r p ih =
          store_records-Kept (recover_pages command_sender persist_page rounds) imported q page _ ih
            (covered response page r p h) (got h)

  pub recover-Kept :
      (request : HistoryRecoveryRequest) (q : ℕ) (w : World D S)
      → buffered w.device q ≡ true
      → request.acknowledged_through_sequence < q
      → (buffered (recover command_sender persist_page request w).1.device q ≡ true)
        ⊎ (stored (recover command_sender persist_page request w).1.store q ≡ true)
  unfolding recover
  recover-Kept request q w there ahead =
      recover_pages-Kept history_max_pages_per_run request.acknowledged_through_sequence 0 q w
        (inl (there, ahead))
