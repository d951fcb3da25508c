-- ===== src/HistoryRecovery/Coordinator/Serial.antt =====
-- app/local_history_recovery.py: at most one request per device is on its way.
use smart_monitor_back_end.Base.{
  ℕ, zero, suc, ◌+◌, ◌≡◌, ◌≤◌, inl, inr, refl, subst, ap, String, Bool, true, false, not, ◌||◌,
  Bool-cases, Option, none, some, List, [], ◌∷◌, ◌++◌, arith, length, length-append, ltb, leb,
  if◌then◌else◌, ◌==◌, string_eq, eq_iff, pair_eq, nat_eq, option_eq,
}
use smart_monitor_back_end.Base.Dict
use smart_monitor_back_end.HistoryRecovery.{HistoryRecoveryRequest}
use smart_monitor_back_end.HistoryRecovery.Coordinator.{
  Worker, absent, waiting, recovering, ended, Coordinator, queue_size, init, contains, add, discard,
  or_zero, reserve, enqueue, past, take_reserved, put_taken, put_reserved, put_sentinel, take_entry,
  succeed_at, fail_at, settle_at, Event, reserves, puts, starts, stops, puts_sentinel, gets,
  settles, succeeds, fails, step, run, is_absent,
}

abbrev bit : Bool → ℕ
bit true = 1
bit false = 0

-- How many of the requests are for the device `d`.
abbrev for_device : String → List HistoryRecoveryRequest → ℕ
for_device d [] = 0
for_device d (r ∷ rs) = bit (r.mqtt_device_id == d) + for_device d rs

abbrev queued_for : String → List (Option HistoryRecoveryRequest) → ℕ
queued_for d [] = 0
queued_for d (none ∷ q) = queued_for d q
queued_for d (some r ∷ q) = bit (r.mqtt_device_id == d) + queued_for d q

abbrev held_for : String → Worker → ℕ
held_for d absent = 0
held_for d waiting = 0
held_for d (recovering r) = bit (r.mqtt_device_id == d)
held_for d (ended r) = bit (r.mqtt_device_id == d)

-- The requests for a device that are reserved, queued, or with the worker.
abbrev pub on_their_way : String → Coordinator → ℕ
on_their_way d s = for_device d s.reserved + queued_for d s.queue + held_for d s.worker

abbrev pub Serial : Coordinator → Type 0
Serial s =
    ((d : String) → on_their_way d s ≡ bit (contains d s.pending_devices))
    × (length s.queue ≤ queue_size)

contains-discard :
    (d e : String) (ds : List String)
    → bit (contains d (discard e ds)) + (if e == d then bit (contains d ds) else 0)
      ≡ bit (contains d ds)
contains-discard d e [] = ground (arith, eq_iff e d)
contains-discard d e (x ∷ xs) =
    ground (arith, contains-discard d e xs, eq_iff e d, eq_iff x e, eq_iff x d)

contains-add :
    (d e : String) (ds : List String)
    → contains e ds ≡ false
    → bit (contains d (add e ds)) ≡ bit (e == d) + bit (contains d ds)
contains-add d e ds h = elim (Bool-cases (e == d)) [
  | inl same ↦
      let new : contains d ds ≡ false =
        subst (λ x. contains x ds ≡ false) ((eq_iff e d).0 same) h in
      rw (h, same, new) (omega arith)
  | inr other ↦ rw (h, other) (omega arith)
]

length_snoc :
    (q : List (Option HistoryRecoveryRequest)) (x : Option HistoryRecoveryRequest)
    → length (q ++ x ∷ []) ≡ suc (length q)
length_snoc q x = omega (arith, length-append q (x ∷ []))

queued_for-append :
    (d : String) (q r : List (Option HistoryRecoveryRequest))
    → queued_for d (q ++ r) ≡ queued_for d q + queued_for d r
queued_for-append d [] r = omega arith
queued_for-append d (none ∷ q) r = queued_for-append d q r
queued_for-append d (some x ∷ q) r = omega (arith, queued_for-append d q r)

-- A device's count falls by what the request that goes was, when its device is discarded.
discarded :
    (d e : String) (ds : List String) (before after : ℕ)
    → before ≡ bit (contains d ds)
    → before ≡ bit (e == d) + after
    → after ≡ bit (contains d (discard e ds))
discarded d e ds before after h k = elim (Bool-cases (e == d)) [
  | inl same ↦ ground (arith, same, h, k, contains-discard d e ds)
  | inr other ↦ ground (arith, other, h, k, contains-discard d e ds)
]

reserved-Serial :
    (r : HistoryRecoveryRequest) (s : Coordinator)
    → contains r.mqtt_device_id s.pending_devices ≡ false
    → Serial s
    → Serial (record s {
      pending_devices = add r.mqtt_device_id s.pending_devices;
      reserved = r ∷ s.reserved;
    })
reserved-Serial r s new v =
    ((λ d. omega (arith, v.0 d, contains-add d r.mqtt_device_id s.pending_devices new)), v.1)

reserve-Serial :
    (now : ℕ) (r : HistoryRecoveryRequest) (s : Coordinator) → Serial s → Serial (reserve now r s).1
unfolding reserve
reserve-Serial now r s v =
    elim (Bool-cases (not s.running || contains r.mqtt_device_id s.pending_devices)) [
      | inl refused ↦ rw refused v
      | inr new ↦
          elim (Bool-cases
            (Dict.get s.completed_markers r.mqtt_device_id == some r.recovery_marker)) [
              | inl done ↦ rw (new, done) v
              | inr undone ↦
                  elim (Bool-cases (leb r.newest_sequence r.acknowledged_through_sequence)) [
                    | inl nothing ↦ rw (new, undone, nothing) v
                    | inr left ↦
                        elim (Bool-cases
                          (ltb now (or_zero (Dict.get s.retry_after r.mqtt_device_id)))) [
                            | inl early ↦ rw (new, undone, left, early) v
                            | inr due ↦
                                rw (new, undone, left, due) (reserved-Serial r s (second new) v)
                          ]
                  ]
            ]
    ]
  where
    second :
        (not s.running || contains r.mqtt_device_id s.pending_devices) ≡ false
        → contains r.mqtt_device_id s.pending_devices ≡ false
    second h = ground (arith, h)

take_reserved-count :
    (d : String) (n : ℕ) (rs rest : List HistoryRecoveryRequest) (r : HistoryRecoveryRequest)
    → take_reserved n rs ≡ some (r, rest)
    → for_device d rs ≡ bit (r.mqtt_device_id == d) + for_device d rest
take_reserved-count d n [] rest r h = cc
take_reserved-count d zero (x ∷ rs) rest r h = ground (arith, h)
take_reserved-count d (suc n) (x ∷ rs) rest r h =
    go (take_reserved n rs) h (λ tail e. take_reserved-count d n rs tail r e) refl
  where
    go :
        (o : Option (HistoryRecoveryRequest × List HistoryRecoveryRequest))
        → past x o ≡ some (r, rest)
        → ((tail : List HistoryRecoveryRequest)
            → take_reserved n rs ≡ some (r, tail)
            → for_device d rs ≡ bit (r.mqtt_device_id == d) + for_device d tail)
        → take_reserved n rs ≡ o
        → for_device d (x ∷ rs) ≡ bit (r.mqtt_device_id == d) + for_device d rest
    go none k ih e = cc
    go (some (q, tail)) k ih e = ground (arith, k, e, ih tail)

enqueue-Serial :
    (r : HistoryRecoveryRequest) (s : Coordinator)
    → ((d : String)
        → bit (r.mqtt_device_id == d) + on_their_way d s ≡ bit (contains d s.pending_devices))
    → length s.queue ≤ queue_size
    → Serial (enqueue r s).1
unfolding enqueue
enqueue-Serial r s v small = elim (Bool-cases (ltb (length s.queue) queue_size)) [
  | inl room ↦ rw room (
    (λ d. omega (arith, v d, queued_for-append d s.queue (some r ∷ []))),
    ground (arith, room, length_snoc s.queue (some r)),
  )
  | inr full ↦ rw full (
    (λ d.
        discarded d r.mqtt_device_id s.pending_devices
          (bit (r.mqtt_device_id == d) + on_their_way d s) (on_their_way d s) (v d) refl),
    small,
  )
]

put_reserved-Serial : (n : ℕ) (s : Coordinator) → Serial s → Serial (put_reserved n s)
unfolding put_reserved
put_reserved-Serial n s v = go (take_reserved n s.reserved) refl
  where
    go :
        (o : Option (HistoryRecoveryRequest × List HistoryRecoveryRequest))
        → take_reserved n s.reserved ≡ o
        → Serial (put_taken s o)
    go none e = v
    go (some (r, rest)) e =
        enqueue-Serial r (record s { reserved = rest })
          (λ d. omega (arith, v.0 d, take_reserved-count d n s.reserved rest r e)) v.1

put_sentinel-Serial : (s : Coordinator) → Serial s → Serial (put_sentinel s)
unfolding put_sentinel
put_sentinel-Serial s v = elim (Bool-cases (ltb (length s.queue) queue_size)) [
  | inl room ↦ rw room (
    (λ d. omega (arith, v.0 d, queued_for-append d s.queue (none ∷ []))),
    ground (arith, room, length_snoc s.queue none),
  )
  | inr full ↦ rw full v
]

-- The entry that the worker takes moves from the queue to the worker.
take_entry-Serial :
    (w : Worker) (q : List (Option HistoryRecoveryRequest)) (s : Coordinator)
    → s.worker ≡ w
    → s.queue ≡ q
    → Serial s
    → Serial (take_entry w q s)
take_entry-Serial waiting (some r ∷ q) s e f v = (
  (λ d. omega (arith, v.0 d, ap (held_for d) e, ap (queued_for d) f)),
  omega (arith, v.1, ap length f),
)
take_entry-Serial waiting (none ∷ q) s e f v = (
  (λ d. omega (arith, v.0 d, ap (held_for d) e, ap (queued_for d) f)),
  omega (arith, v.1, ap length f),
)
take_entry-Serial waiting [] s e f v = elim (Bool-cases s.running) [
  | inl r ↦ rw r v
  | inr stopped ↦ rw stopped ((λ d. omega (arith, v.0 d, ap (held_for d) e)), v.1)
]
take_entry-Serial absent q s e f v = v
take_entry-Serial (recovering r) q s e f v = v
take_entry-Serial (ended r) q s e f v = v

succeed_at-Serial :
    (w : Worker) (imported cursor : ℕ) (s : Coordinator)
    → s.worker ≡ w
    → Serial s
    → Serial (succeed_at w imported cursor s)
succeed_at-Serial (recovering r) imported cursor s e v =
    ((λ d. omega (arith, v.0 d, ap (held_for d) e)), v.1)
succeed_at-Serial absent imported cursor s e v = v
succeed_at-Serial waiting imported cursor s e v = v
succeed_at-Serial (ended r) imported cursor s e v = v

fail_at-Serial :
    (w : Worker) (now : ℕ) (s : Coordinator) → s.worker ≡ w → Serial s → Serial (fail_at w now s)
fail_at-Serial (recovering r) now s e v = ((λ d. omega (arith, v.0 d, ap (held_for d) e)), v.1)
fail_at-Serial absent now s e v = v
fail_at-Serial waiting now s e v = v
fail_at-Serial (ended r) now s e v = v

settle_at-Serial : (w : Worker) (s : Coordinator) → s.worker ≡ w → Serial s → Serial (settle_at w s)
settle_at-Serial (ended r) s e v = (
  (λ d.
      discarded d r.mqtt_device_id s.pending_devices (on_their_way d s)
        (for_device d s.reserved + queued_for d s.queue + 0) (v.0 d)
        (omega (arith, ap (held_for d) e))),
  v.1,
)
settle_at-Serial absent s e v = v
settle_at-Serial waiting s e v = v
settle_at-Serial (recovering r) s e v = v

start-Serial :
    (w : Worker) (s : Coordinator)
    → s.worker ≡ w
    → Serial s
    → Serial (if is_absent w then record s { running = true; worker = waiting } else s)
start-Serial absent s e v = ((λ d. omega (arith, v.0 d, ap (held_for d) e)), v.1)
start-Serial waiting s e v = v
start-Serial (recovering r) s e v = v
start-Serial (ended r) s e v = v

step-Serial : (e : Event) (s : Coordinator) → Serial s → Serial (step e s)
unfolding step
step-Serial (reserves now r) s v = reserve-Serial now r s v
step-Serial (puts n) s v = put_reserved-Serial n s v
step-Serial starts s v = start-Serial s.worker s refl v
step-Serial stops s v = v
step-Serial puts_sentinel s v = put_sentinel-Serial s v
step-Serial gets s v = take_entry-Serial s.worker s.queue s refl refl v
step-Serial settles s v = settle_at-Serial s.worker s refl v
step-Serial (succeeds imported cursor) s v = succeed_at-Serial s.worker imported cursor s refl v
step-Serial (fails now) s v = fail_at-Serial s.worker now s refl v

run-Serial_from : (es : List Event) (s : Coordinator) → Serial s → Serial (run es s)
unfolding run
run-Serial_from [] s v = v
run-Serial_from (e ∷ es) s v = run-Serial_from es (step e s) (step-Serial e s v)

-- In every interleaving of the steps of the scheduling threads, the worker, `start` and `stop`, the
-- queue has at most 100 entries, and each device has at most one request that is reserved, queued or
-- with the worker: one when the device is in the set of pending devices, and none when it is not.
pub run-Serial : (es : List Event) → Serial (run es init)
run-Serial es = run-Serial_from es init ((λ d. refl), omega arith)
