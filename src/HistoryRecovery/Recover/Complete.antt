-- ===== src/HistoryRecovery/Recover/Complete.antt =====
-- app/local_history_recovery.py: a recovery from a device that answers reaches the end of its buffer.
use smart_monitor_back_end.Base.{
  ℕ, zero, suc, ◌+◌, ◌*◌, ◌≡◌, ◌≤◌, ◌<◌, refl, sym, ap, subst, ◌∙◌, Bool, true, false, List, [],
  ◌∷◌, arith, length,
}
use smart_monitor_back_end.Base.Http.{Result, ok, err}
use smart_monitor_back_end.Base.Json.{Json, Fields}
use smart_monitor_back_end.HistoryRecovery.{
  HistoryPage, HistoryRecoveryRequest, history_page_limit, parse_history_page, validate_history_ack,
}
use smart_monitor_back_end.HistoryRecovery.Recover.{
  ◌>>=◌, Run, Command, get_history, ack_history, World, go_on, send, lift, persist, after_ack,
  confirm, acknowledge, store_records, on_records, on_page, on_response, recover_pages, recover,
  history_max_pages_per_run,
}

-- What a page is to a device with `left` records after each cursor: it has as many of them as it
-- skips, it announces more exactly when some are left, and then it is full.
pub record Pages (left : ℕ → ℕ) (cursor : ℕ) (page : HistoryPage) : Type 0 where
  pub counted : length page.records + left page.next_cursor ≡ left cursor
  pub last : page.has_more ≡ false → left page.next_cursor ≡ 0
  pub more :
      page.has_more ≡ true
      → (0 < left page.next_cursor) × (length page.records ≡ history_page_limit)

-- A device that answers: its page is accepted and fits its buffer, and its acknowledgement is
-- accepted and leaves the records after it. The repository stores
-- each of its pages while its store is ready, and keeps it ready.
pub record Answers {D S : Type 0} (command_sender : Command → D → Result Json × D)
    (persist_page : List Fields → S → Result ℕ × S) (left : D → ℕ → ℕ) (Ready : S → Type 0)
    : Type 0 where
  pub gives :
      (cursor : ℕ) (d : D)
      → (response : Json) × (page : HistoryPage) × (command_sender (get_history cursor) d
          ≡ (ok response, d))
        × (parse_history_page response cursor ≡ ok page)
        × Pages (left d) cursor page
        × ((s : S)
            → Ready s
            → (count : ℕ) × (s' : S) × (persist_page page.records s ≡ (ok count, s')) × Ready s')
  pub acknowledges :
      (through : ℕ) (d : D)
      → (response : Json) × (d' : D) × (command_sender (ack_history through) d ≡ (ok response, d'))
        × (validate_history_ack response through ≡ ok tt)
        × (left d' through ≡ left d through)

call-ok :
    {D S A B : Type 0} (m : World D S → Result A × World D S)
    (f : A → World D S → Result B × World D S) (w v : World D S) (a : A)
    → m w ≡ (ok a, v)
    → (m >>= f) w ≡ f a v
call-ok {D} {S} {A} {B} m f w v a h =
    ap
      (λ (p : Result A × World D S). elim p.0 as (λ _. Result B × World D S) [
        | err e ↦ (err e, p.1)
        | ok b ↦ f b p.1
      ])
      h

module _ {D S : Type 0} (command_sender : Command → D → Result Json × D)
    (persist_page : List Fields → S → Result ℕ × S) (left : D → ℕ → ℕ) (Ready : S → Type 0)
    (answers : Answers command_sender persist_page left Ready) where
  -- The run returns, and no record is left after the cursor that it returns.
  abbrev Finishes : Result (ℕ × ℕ) × World D S → Type 0
  Finishes r =
      (imported : ℕ) × (cursor : ℕ) × (w : World D S) × (r ≡ (ok (imported, cursor), w))
      × (left w.device cursor ≡ 0)

  go_on-Finishes :
      (rounds : ℕ) (next : ℕ → ℕ → Run command_sender persist_page) (more : Bool)
      (imported cursor : ℕ) (w : World D S)
      → ((c i : ℕ) (v : World D S)
          → 0 < rounds
          → left v.device c ≤ 2 * rounds
          → Ready v.store
          → Finishes (next c i v))
      → (more ≡ false → left w.device cursor ≡ 0)
      → (more ≡ true → (0 < left w.device cursor) × (left w.device cursor ≤ 2 * rounds))
      → Ready w.store
      → Finishes (go_on command_sender persist_page more next imported cursor w)
  go_on-Finishes rounds next true imported cursor w ih last more ready =
      let (some_left, few) = more refl in ih cursor imported w (omega arith) few ready
  go_on-Finishes rounds next false imported cursor w ih last more ready =
      (imported, cursor, w, refl, last refl)

  store_records-Finishes :
      (rounds : ℕ) (next : ℕ → ℕ → Run command_sender persist_page) (imported cursor : ℕ)
      (page : HistoryPage) (w : World D S)
      → ((c i : ℕ) (v : World D S)
          → 0 < rounds
          → left v.device c ≤ 2 * rounds
          → Ready v.store
          → Finishes (next c i v))
      → Pages (left w.device) cursor page
      → left w.device cursor ≤ 2 * suc rounds
      → ((s : S)
          → Ready s
          → (count : ℕ) × (s' : S) × (persist_page page.records s ≡ (ok count, s')) × Ready s')
      → Ready w.store
      → Finishes (store_records command_sender persist_page next imported page w)
  store_records-Finishes rounds next imported cursor page w ih pages few stores ready =
      let (count, s', stored, ready') = stores w.store ready in
      let (response, d', acked, valid, kept) = answers.acknowledges page.next_cursor w.device in
      let stored_world : World D S = record { device = w.device; store = s' } in
      let acked_world : World D S = record { device = d'; store = s' } in
      let first =
        call-ok (persist command_sender persist_page page.records)
          (acknowledge command_sender persist_page next imported page) w stored_world count
          (ap (λ (r : Result ℕ × S). (r.0, record w { store = r.1 })) stored) in
      let second =
        call-ok (send command_sender persist_page (ack_history page.next_cursor))
          (confirm command_sender persist_page next (imported + count) page) stored_world
          acked_world response
          (ap (λ (r : Result Json × D). (r.0, record stored_world { device = r.1 })) acked) in
      let third =
        call-ok (lift (validate_history_ack response page.next_cursor))
          (λ checked. after_ack command_sender persist_page next (imported + count) page)
          acked_world acked_world tt (ap (λ (r : Result (Unit {0})). (r, acked_world)) valid) in
      subst Finishes (sym (first ∙ second ∙ third)) (
        go_on-Finishes rounds next page.has_more (imported + count) page.next_cursor acked_world ih
          (λ m. kept ∙ pages.last m)
          (λ m.
            let (some_left, full) = pages.more m in
            (omega (arith, kept), omega (arith, kept, full, pages.counted)))
          ready')

  recover_pages-Finishes :
      (rounds cursor imported : ℕ) (w : World D S)
      → 0 < rounds
      → left w.device cursor ≤ 2 * rounds
      → Ready w.store
      → Finishes (recover_pages command_sender persist_page rounds cursor imported w)
  unfolding recover_pages
  recover_pages-Finishes zero cursor imported w pos few ready = absurd (omega arith)
  recover_pages-Finishes (suc rounds) cursor imported w pos few ready =
      let (response, page, got, parsed, pages, stores) = answers.gives cursor w.device in
      let first =
        call-ok (send command_sender persist_page (get_history cursor))
          (on_response command_sender persist_page
            (recover_pages command_sender persist_page rounds) cursor imported)
          w w response (ap (λ (r : Result Json × D). (r.0, record w { device = r.1 })) got) in
      let second =
        call-ok (lift (parse_history_page response cursor))
          (on_page command_sender persist_page (recover_pages command_sender persist_page rounds)
            cursor imported)
          w w page (ap (λ (r : Result HistoryPage). (r, w)) parsed) in
      subst Finishes (sym (first ∙ second)) (
        on_records-Finishes page.records page refl pages stores
          (λ c i v p f r. recover_pages-Finishes rounds c i v p f r))
    where
      empty :
          (page : HistoryPage)
          → page.records ≡ []
          → Pages (left w.device) cursor page
          → (m : Bool) → page.has_more ≡ m
          → left w.device cursor ≡ 0
      empty page e pages true m = absurd (ground (arith, e, pages.more m))
      empty page e pages false m = omega (arith, pages.counted, pages.last m, ap length e)

      on_records-Finishes :
          (rs : List Fields) (page : HistoryPage)
          → page.records ≡ rs
          → Pages (left w.device) cursor page
          → ((s : S)
              → Ready s
              → (count : ℕ) × (s' : S) × (persist_page page.records s ≡ (ok count, s')) × Ready s')
          → ((c i : ℕ) (v : World D S)
              → 0 < rounds
              → left v.device c ≤ 2 * rounds
              → Ready v.store
              → Finishes (recover_pages command_sender persist_page rounds c i v))
          → Finishes (
              on_records command_sender persist_page
                (recover_pages command_sender persist_page rounds)
                cursor
                imported
                page
                rs
                w)
      on_records-Finishes [] page e pages stores ih =
          (imported, cursor, w, refl, empty page e pages page.has_more refl)
      on_records-Finishes (_ ∷ _) page e pages stores ih =
          store_records-Finishes rounds (recover_pages command_sender persist_page rounds) imported
            cursor page w ih pages few stores ready

  -- From a device that answers, with at most 512 records left after the acknowledged sequence (256
  -- pages of two), and a repository that is ready, a recovery returns, and no record is left after
  -- the cursor that it returns.
  pub recover_completes :
      (request : HistoryRecoveryRequest) (w : World D S)
      → left w.device request.acknowledged_through_sequence ≤ 512
      → Ready w.store
      → (imported : ℕ) × (cursor : ℕ) × (w' : World D S) × (recover command_sender persist_page
            request w
          ≡ (ok (imported, cursor), w'))
        × (left w'.device cursor ≡ 0)
  unfolding recover
  recover_completes request w few ready =
      recover_pages-Finishes history_max_pages_per_run request.acknowledged_through_sequence 0 w
        (omega arith) few ready
