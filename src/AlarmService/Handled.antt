-- ===== src/AlarmService/Handled.antt =====
-- app/alarm_service.py: the number of active occurrences, through the handling of one item and of the
-- rules that are gone.
use smart_monitor_back_end.Base.{
  ℕ, ◌≡◌, refl, ap, subst, String, Bool, true, false, Option, none, some, List, arith,
  if◌then◌else◌, ◌==◌, nat_eq,
}
use smart_monitor_back_end.Base.Http.{Result, ok, err, ok_injective}
use smart_monitor_back_end.AlarmService.{
  AlarmOccurrence, AlarmTables, Alarm, active_occurrence, clear_one, clear_superseded,
  new_occurrence, is_repeat, refresh, count_change, raise_alarm, clear_alarm, handle_alarm,
  is_missing, clear_missing,
}
use smart_monitor_back_end.AlarmService.OneActive.{
  OneActive, none_left, clear_where-OneActive, clear_superseded-OneActive, refresh-OneActive,
  insert_occurrence-OneActive,
}

count_change-ok :
    (r : Result AlarmTables) (n : ℕ) (t : AlarmTables) → count_change r ≡ ok (n, t) → r ≡ ok t
count_change-ok (ok u) n t h =
    ap ok (ap (λ (p : ℕ × AlarmTables). p.1) (ok_injective (1, u) (n, t) h))
count_change-ok (err e) n t h = absurd (ground (arith, h))

same_tables :
    (m n : ℕ) (t t' : AlarmTables)
    → ◌≡◌ {A = Result (ℕ × AlarmTables)} (ok (m, t)) (ok (n, t'))
    → t ≡ t'
same_tables m n t t' h = ap (λ (p : ℕ × AlarmTables). p.1) (ok_injective (m, t) (n, t') h)

module _ (device_id boot_count time : ℕ) (a : Alarm) (found : Option AlarmOccurrence)
    (t : AlarmTables) (n : ℕ) (t' : AlarmTables) where
  raise_cases :
      (b c : Bool) (r : Result (ℕ × AlarmTables))
      → (if b then ok (0, t) else if c then ok (0, refresh a found t) else r) ≡ ok (n, t')
      → (OneActive t)
      → (r ≡ ok (n, t') → OneActive t')
      → OneActive t'
  raise_cases true c r h v k = subst OneActive (same_tables 0 n t t' h) v
  raise_cases false true r h v k =
      subst OneActive (same_tables 0 n (refresh a found t) t' h) (refresh-OneActive a found t v)
  raise_cases false false r h v k = k h

  raise_alarm-OneActive :
      OneActive t
      → active_occurrence device_id a.alarm_key t.occurrences ≡ found
      → raise_alarm device_id boot_count time a found t ≡ ok (n, t')
      → OneActive t'
  unfolding raise_alarm
  raise_alarm-OneActive v e h =
      raise_cases (a.transition_count == 0) (is_repeat boot_count a.transition_count found) _ h v
        (λ inserted.
          insert_occurrence-OneActive (new_occurrence device_id boot_count time a t.next_id)
            (clear_superseded time a.transition_count found t) t'
            (clear_superseded-OneActive time a.transition_count found t v)
            (none_left device_id a.alarm_key time a.transition_count t found v e)
            (count_change-ok _ n t' inserted))

clear_alarm-OneActive :
    (time : ℕ) (a : Alarm) (found : Option AlarmOccurrence) (t : AlarmTables)
    → OneActive t
    → OneActive (clear_alarm time a found t).1
unfolding clear_alarm
clear_alarm-OneActive time a none t v = v
clear_alarm-OneActive time a (some o) t v =
    clear_where-OneActive (λ x. x.id == o.id) time (some a.transition_count) t
      (clear_one time (some a.transition_count) "threshold_normal" o t) v refl

handle_cases :
    (b : Bool) (r : Result (ℕ × AlarmTables)) (c : ℕ × AlarmTables) (n : ℕ) (t' : AlarmTables)
    → (if b then r else ok c) ≡ ok (n, t')
    → (r ≡ ok (n, t') → OneActive t')
    → OneActive c.1
    → OneActive t'
handle_cases true r c n t' h k v = k h
handle_cases false r c n t' h k v =
    subst OneActive (ap (λ (p : ℕ × AlarmTables). p.1) (ok_injective c (n, t') h)) v

pub handle_alarm-OneActive :
    (device_id boot_count time : ℕ) (a : Alarm) (t : AlarmTables) (n : ℕ) (t' : AlarmTables)
    → OneActive t
    → handle_alarm device_id boot_count time a t ≡ ok (n, t')
    → OneActive t'
unfolding handle_alarm
handle_alarm-OneActive device_id boot_count time a t n t' v h =
    let found = active_occurrence device_id a.alarm_key t.occurrences in
    handle_cases a.raised (raise_alarm device_id boot_count time a found t)
      (clear_alarm time a found t) n t' h
      (raise_alarm-OneActive device_id boot_count time a found t n t' v refl)
      (clear_alarm-OneActive time a found t v)

pub clear_missing-OneActive :
    (device_id time : ℕ) (seen : List String) (t : AlarmTables)
    → OneActive t
    → OneActive (clear_missing device_id time seen t).1
unfolding clear_missing
clear_missing-OneActive device_id time seen t v =
    clear_where-OneActive (is_missing device_id seen) time none t
      (clear_missing device_id time seen t).1 v refl
