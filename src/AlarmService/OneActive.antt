-- ===== src/AlarmService/OneActive.antt =====
-- app/alarm_service.py: the number of active occurrences of an alarm, through each write to the tables.
use smart_monitor_back_end.Base.{
  ℕ, suc, ◌≤◌, ◌≡◌, ◌≢◌, refl, sym, ◌∙◌, ap, subst, String, Bool, true, false, Option, none, some,
  List, [], ◌∷◌, arith, length, keep, any, update_where, if◌then◌else◌, Bool-cases, inl, inr, ◌==◌,
  nat_eq, string_eq, beq_self,
}
use smart_monitor_back_end.Base.Rows.{length-keep-update_where}
use smart_monitor_back_end.Base.Http.{ok, err, integrity_error, ok_injective}
use smart_monitor_back_end.AlarmService.{
  AlarmOccurrence, AlarmTables, Alarm, active_of, pick, active_occurrence, clear_row,
  clear_superseded, occurrence_conflict, insert_occurrence, refresh_row, refresh,
}

-- At most one active occurrence of each alarm of each device.
pub record OneActive (t : AlarmTables) : Type 0 where
  pub one : (d : ℕ) (k : String) → length (keep (active_of d k) t.occurrences) ≤ 1

no_length {ℓ} : {A : Type ℓ} (xs : List A) → length xs ≡ 0 → xs ≡ []
no_length [] h = refl
no_length (x ∷ xs) h = absurd (omega (arith, h))

cleared_inactive :
    (d : ℕ) (k : String) (time : ℕ) (count : Option ℕ) (o : AlarmOccurrence)
    → active_of d k (clear_row time count o) ≡ false
cleared_inactive d k time count o = ground arith

-- Clearing any rows leaves no more active ones.
length-keep-clear :
    (d : ℕ) (k : String) (q : AlarmOccurrence → Bool) (time : ℕ) (count : Option ℕ)
    (os : List AlarmOccurrence)
    → length (keep (active_of d k) (update_where q (clear_row time count) os))
      ≤ length (keep (active_of d k) os)
length-keep-clear d k q time count os =
    length-keep-update_where (active_of d k) q (clear_row time count) os
      (λ x h. absurd (ground (arith, h, cleared_inactive d k time count x)))

active_occurrence-none :
    (d : ℕ) (k : String) (os : List AlarmOccurrence)
    → active_occurrence d k os ≡ none
    → keep (active_of d k) os ≡ []
unfolding active_occurrence
active_occurrence-none d k [] h = refl
active_occurrence-none d k (o ∷ os) h = elim (Bool-cases (active_of d k o)) [
  | inl e ↦ absurd (some_none (pick o (active_occurrence d k os)) (sym (rw e refl) ∙ h))
  | inr e ↦ rw e (active_occurrence-none d k os (sym (rw e refl) ∙ h))
]
  where
    some_none : (x : AlarmOccurrence) → some x ≢ none
    some_none x h = cc h

none_active :
    (d : ℕ) (k : String) (os : List AlarmOccurrence)
    → length (keep (active_of d k) os) ≡ 0
    → active_occurrence d k os ≡ none
unfolding active_occurrence
none_active d k [] h = refl
none_active d k (o ∷ os) h = elim (Bool-cases (active_of d k o)) [
  | inl e ↦ absurd (too_long (sym (rw e refl) ∙ h))
  | inr e ↦ rw e (none_active d k os (sym (rw e refl) ∙ h))
]
  where
    too_long : suc (length (keep (active_of d k) os)) ≢ 0
    too_long h = omega (arith, h)

-- Clearing the active occurrence of an alarm that has only one leaves none.
cleared_all :
    (d : ℕ) (k : String) (time : ℕ) (count : Option ℕ) (os : List AlarmOccurrence)
    (o : AlarmOccurrence)
    → length (keep (active_of d k) os) ≤ 1
    → active_occurrence d k os ≡ some o
    → length (keep (active_of d k) (update_where (λ x. x.id == o.id) (clear_row time count) os)) ≡ 0
unfolding active_occurrence
cleared_all d k time count [] o one h = absurd (ground (arith, h))
cleared_all d k time count (x ∷ xs) o one h = elim (Bool-cases (active_of d k x)) [
  | inl e ↦
      let rest : length (keep (active_of d k) xs) ≡ 0 = fewer (
        subst (λ b. length (if b then x ∷ keep (active_of d k) xs else keep (active_of d k) xs) ≤ 1)
          e one) in
      let picked : some (pick x (active_occurrence d k xs)) ≡ some o = sym (rw e refl) ∙ h in
      let same : x ≡ o = alone (active_occurrence d k xs) (none_active d k xs rest) picked in
      subst
        (λ y.
          length (
            keep (active_of d k) (update_where (λ z. z.id == y.id) (clear_row time count) (x ∷ xs)))
          ≡ 0)
        same
        (rw (beq_self x.id, cleared_inactive d k time count x)
          (omega (arith, rest, length-keep-clear d k (λ z. z.id == x.id) time count xs)))
  | inr e ↦
      let fewer' : length (keep (active_of d k) xs) ≤ 1 =
        subst (λ b. length (if b then x ∷ keep (active_of d k) xs else keep (active_of d k) xs) ≤ 1)
          e one in
      let later : length
            (keep (active_of d k) (update_where (λ z. z.id == o.id) (clear_row time count) xs))
          ≡ 0 =
        cleared_all d k time count xs o fewer' (sym (rw e refl) ∙ h) in
      elim (Bool-cases (x.id == o.id)) [
        | inl e' ↦ rw (e', cleared_inactive d k time count x) later
        | inr e' ↦ rw (e', e) later
      ]
]
  where
    fewer : length (x ∷ keep (active_of d k) xs) ≤ 1 → length (keep (active_of d k) xs) ≡ 0
    fewer h = omega (arith, h)

    alone : (r : Option AlarmOccurrence) → r ≡ none → some (pick x r) ≡ some o → x ≡ o
    alone none e h = ground (arith, h)
    alone (some y) e h = absurd (ground (arith, e))

-- Before a new occurrence is inserted, none of its alarm is active.
pub none_left :
    (d : ℕ) (k : String) (time count : ℕ) (t : AlarmTables) (found : Option AlarmOccurrence)
    → OneActive t
    → active_occurrence d k t.occurrences ≡ found
    → keep (active_of d k) (clear_superseded time count found t).occurrences ≡ []
none_left d k time count t none v h = active_occurrence-none d k t.occurrences h
none_left d k time count t (some o) v h =
    no_length
      (keep (active_of d k)
        (update_where (λ x. x.id == o.id) (clear_row time (some count)) t.occurrences))
      (cleared_all d k time (some count) t.occurrences o (v.one d k) h)

pub clear_where-OneActive :
    (q : AlarmOccurrence → Bool) (time : ℕ) (count : Option ℕ) (t t' : AlarmTables)
    → OneActive t
    → t'.occurrences ≡ update_where q (clear_row time count) t.occurrences
    → OneActive t'
clear_where-OneActive q time count t t' v h = record {
  one = λ d k.
      subst (λ os. length (keep (active_of d k) os) ≤ 1) (sym h)
        (omega (arith, v.one d k, length-keep-clear d k q time count t.occurrences));
}

pub clear_superseded-OneActive :
    (time count : ℕ) (found : Option AlarmOccurrence) (t : AlarmTables)
    → OneActive t
    → OneActive (clear_superseded time count found t)
clear_superseded-OneActive time count none t v = v
clear_superseded-OneActive time count (some o) t v =
    clear_where-OneActive (λ x. x.id == o.id) time (some count) t
      (clear_superseded time count (some o) t) v refl

pub refresh-OneActive :
    (a : Alarm) (found : Option AlarmOccurrence) (t : AlarmTables)
    → OneActive t
    → OneActive (refresh a found t)
refresh-OneActive a none t v = v
refresh-OneActive a (some o) t v = record {
  one = λ d k. omega (
    arith,
    v.one d k,
    length-keep-update_where (active_of d k) (λ x. x.id == o.id) (refresh_row a) t.occurrences
        (λ x h. h),
  );
}

-- The parts of the test on an active row.
active_of-device :
    (d : ℕ) (k : String) (o : AlarmOccurrence) → active_of d k o ≡ true → o.device_id ≡ d
active_of-device d k o h = (nat_eq.beq_iff o.device_id d).0 (ground (arith, h))

active_of-key :
    (d : ℕ) (k : String) (o : AlarmOccurrence) → active_of d k o ≡ true → o.alarm_key ≡ k
active_of-key d k o h = (string_eq.beq_iff o.alarm_key k).0 (ground (arith, h))

occurrences-insert_branch :
    (b : Bool) (rows : AlarmTables) (t' : AlarmTables)
    → (if b then err integrity_error else ok rows) ≡ ok t'
    → rows ≡ t'
occurrences-insert_branch true rows t' h = absurd (ground (arith, h))
occurrences-insert_branch false rows t' h = ok_injective rows t' h

occurrences-insert :
    (o : AlarmOccurrence) (t t' : AlarmTables)
    → insert_occurrence o t ≡ ok t'
    → t'.occurrences ≡ o ∷ t.occurrences
unfolding insert_occurrence
occurrences-insert o t t' h = sym (
    ap (λ (x : AlarmTables). x.occurrences)
      (occurrences-insert_branch (any (occurrence_conflict o) t.occurrences) _ t' h))

one_more :
    (o : AlarmOccurrence) (d : ℕ) (k : String) (os : List AlarmOccurrence)
    → length (keep (active_of d k) os) ≤ 1
    → keep (active_of o.device_id o.alarm_key) os ≡ []
    → length (keep (active_of d k) (o ∷ os)) ≤ 1
one_more o d k os v free = elim (Bool-cases (active_of d k o)) [
  | inl e ↦
      let empty : keep (active_of d k) os ≡ [] =
        subst (λ i. keep (active_of i k) os ≡ []) (active_of-device d k o e)
          (subst (λ j. keep (active_of o.device_id j) os ≡ []) (active_of-key d k o e) free) in
      rw (e, empty) (omega arith)
  | inr e ↦ rw e v
]

pub insert_occurrence-OneActive :
    (o : AlarmOccurrence) (t t' : AlarmTables)
    → OneActive t
    → keep (active_of o.device_id o.alarm_key) t.occurrences ≡ []
    → insert_occurrence o t ≡ ok t'
    → OneActive t'
insert_occurrence-OneActive o t t' v free h = record {
  one = λ d k.
      subst (λ os. length (keep (active_of d k) os) ≤ 1) (sym (occurrences-insert o t t' h))
        (one_more o d k t.occurrences (v.one d k) free);
}
