-- ===== src/AlarmService/Complete.antt =====
-- app/alarm_service.py: the keys that a snapshot lists, and the end of `ingest_alarm_snapshot`.
use smart_monitor_back_end.Base.{
  ℕ, ◌≡◌, refl, sym, ◌∙◌, ap, subst, String, Bool, true, false, not, ◌&&◌, ◌||◌, Option, none, some,
  List, [], ◌∷◌, arith, any, keep, update_where, ◌==◌, nat_eq, string_eq,
}
use smart_monitor_back_end.Base.Http.{ok, >>=-eq-ok, ok_injective}
use smart_monitor_back_end.Base.Json.{
  is_true, pos, Json, integer, array, object, Items, item, end, Fields, get_field,
}
use smart_monitor_back_end.Database.{Device}
use smart_monitor_back_end.AlarmService.{
  AlarmOccurrence, AlarmTables, Alarm, active_on, clear_row, handle_alarm, is_missing,
  clear_missing,
}
use smart_monitor_back_end.AlarmService.Snapshot.{
  Loop, handled, read_alarm, step_alarm, run_items, total, finish, find_device_by_mqtt_id,
  ingest_items, or_now, ingest_alarm_snapshot,
}
use smart_monitor_back_end.AlarmService.Ingest.{start, ingest_items-finish}

-- All items of the snapshot are valid, and these are their keys.
pub data Lists : Items → List String → Type 0 where
  lists_end : Lists end []
  lists_item :
      (raw : Json) (a : Alarm) {items : Items} {keys : List String}
      → read_alarm raw ≡ ok (some a)
      → Lists items keys
      → Lists (item raw items) (a.alarm_key ∷ keys)

abbrev pub listed : List String → String → Bool
listed keys key = any (λ k. k == key) keys

-- One valid item is seen, and the snapshot stays as complete as it was.
step_alarm-seen :
    (device_id boot_count time : ℕ) (a : Alarm) (st st' : Loop)
    → step_alarm device_id boot_count time (some a) st ≡ ok st'
    → (st'.seen ≡ a.alarm_key ∷ st.seen) × (st'.complete ≡ st.complete)
unfolding step_alarm
step_alarm-seen device_id boot_count time a st st' h =
    let (r, e, h') = >>=-eq-ok (handle_alarm device_id boot_count time a st.tables) _ h in
    let same : handled st a.alarm_key r ≡ st' = ok_injective (handled st a.alarm_key r) st' h' in
    (sym (ap (λ (x : Loop). x.seen) same), sym (ap (λ (x : Loop). x.complete) same))

-- Of the keys that the loop has seen, all but those from before are listed.
run_items-seen :
    (device_id boot_count time : ℕ) {items : Items} {keys : List String} (st st' : Loop)
    → Lists items keys
    → run_items device_id boot_count time items st ≡ ok st'
    → (st'.complete ≡ st.complete)
      × ((key : String)
          → listed st'.seen key ≡ true
          → (listed keys key || listed st.seen key) ≡ true)
unfolding run_items
run_items-seen device_id boot_count time st st' lists_end h =
    let same : st ≡ st' = ok_injective st st' h in
    (
      sym (ap (λ (x : Loop). x.complete) same),
      λ key k. subst (λ (x : Loop). listed x.seen key ≡ true) (sym same) k,
    )
run_items-seen device_id boot_count time st st' (lists_item raw a {items} {keys} read rest) h =
    let (o, e1, h1) = >>=-eq-ok (read_alarm raw) _ h in
    let (mid, e2, h2) = >>=-eq-ok (step_alarm device_id boot_count time o st) _ h1 in
    let same : o ≡ some a = ok_injective o (some a) (sym e1 ∙ read) in
    let (seen, complete) =
      step_alarm-seen device_id boot_count time a st mid
        (subst (λ x. step_alarm device_id boot_count time x st ≡ ok mid) same e2) in
    let (complete', listed') = run_items-seen device_id boot_count time mid st' rest h2 in
    (
      complete' ∙ complete,
      λ key k.
          moved a.alarm_key keys st.seen key
            (subst (λ s. (listed keys key || listed s key) ≡ true) seen (listed' key k)),
    )
  where
    moved :
        (k : String) (ks seen : List String) (key : String)
        → (listed ks key || listed (k ∷ seen) key) ≡ true
        → (listed (k ∷ ks) key || listed seen key) ≡ true
    moved k ks seen key h = ground (arith, h)

-- Clearing exactly the rows of a query empties a narrower one.
keep-update_where_gone :
    {A : Type 0} (p q : A → Bool) (f : A → A) (xs : List A)
    → ((x : A) → p (f x) ≡ false)
    → ((x : A) → p x ≡ true → q x ≡ true)
    → keep p (update_where q f xs) ≡ []
keep-update_where_gone p q f [] gone narrow = refl
keep-update_where_gone p q f (x ∷ xs) gone narrow =
    ground (arith, gone x, narrow x, keep-update_where_gone p q f xs gone narrow)

cleared_not_missing :
    (d : ℕ) (keys : List String) (time : ℕ) (count : Option ℕ) (o : AlarmOccurrence)
    → is_missing d keys (clear_row time count o) ≡ false
cleared_not_missing d keys time count o = ground arith

finish_complete :
    (device_id time : ℕ) (st : Loop)
    → st.complete ≡ true
    → finish device_id time st ≡ total st.changes (clear_missing device_id time st.seen st.tables)
unfolding finish
finish_complete device_id time st complete = rw complete refl

finish-missing :
    (device_id time : ℕ) (keys : List String) (st : Loop) (n : ℕ) (t' : AlarmTables)
    → st.complete ≡ true
    → ((key : String) → listed st.seen key ≡ true → listed keys key ≡ true)
    → finish device_id time st ≡ (n, t')
    → keep (is_missing device_id keys) t'.occurrences ≡ []
unfolding clear_missing
finish-missing device_id time keys st n t' complete covers h =
    let rows : update_where (is_missing device_id st.seen) (clear_row time none)
          st.tables.occurrences
        ≡ t'.occurrences =
      ap (λ (p : ℕ × AlarmTables). p.1.occurrences)
        (sym (finish_complete device_id time st complete) ∙ h) in
    subst (λ os. keep (is_missing device_id keys) os ≡ []) rows
      (keep-update_where_gone (is_missing device_id keys) (is_missing device_id st.seen)
        (clear_row time none) st.tables.occurrences (cleared_not_missing device_id keys time none)
        (λ o m.
          narrow (active_on device_id o) (listed keys o.alarm_key) (listed st.seen o.alarm_key) m
            (covers o.alarm_key)))
  where
    narrow : (a l s : Bool) → (a && not l) ≡ true → (s ≡ true → l ≡ true) → (a && not s) ≡ true
    narrow a l s h k = ground (arith, h, k)

-- After a snapshot that says it is ready and whose items are all valid, every alarm of the device that
-- is still active is listed in it: a rule that was disabled or reset does not stay active.
pub complete_snapshot_clears :
    (devices : List Device) (device : Device) (mqtt : String) (fields : Fields) (items : Items)
    (keys : List String) (boots : ℕ) (occurred_at : Option ℕ) (now : ℕ) (t : AlarmTables) (n : ℕ)
    (t' : AlarmTables)
    → find_device_by_mqtt_id mqtt devices ≡ some device
    → get_field "items" fields ≡ array items
    → is_true (get_field "ready" fields) ≡ true
    → Lists items keys
    → ingest_alarm_snapshot devices mqtt (object fields) (integer (pos boots)) occurred_at now t
      ≡ ok (n, t')
    → keep (λ o. active_on device.id o && not (listed keys o.alarm_key)) t'.occurrences ≡ []
unfolding ingest_alarm_snapshot
complete_snapshot_clears devices device mqtt fields items keys boots occurred_at now t n t' found
      listing ready valid h =
    let time = or_now occurred_at now in
    let h' : ingest_items device fields items boots (or_now occurred_at now) t ≡ ok (n, t') =
      sym (rw (listing, found) refl) ∙ h in
    let (st, ran, ended) = ingest_items-finish device fields items boots time t n t' h' in
    let (complete, covers) = run_items-seen device.id boots time (start fields t) st valid ran in
    finish-missing device.id time keys st n t' (complete ∙ ready)
      (λ key k. no_other (listed keys key) (covers key k)) ended
  where
    no_other : (b : Bool) → (b || false) ≡ true → b ≡ true
    no_other b h = ground (arith, h)
