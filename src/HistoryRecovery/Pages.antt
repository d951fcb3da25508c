-- ===== src/HistoryRecovery/Pages.antt =====
-- app/local_history_recovery.py: what a page that was accepted says.
use smart_monitor_back_end.Base.{
  ℕ, suc, ◌≢◌, ◌≡◌, ◌≤◌, ◌<◌, refl, sym, subst, String, Bool, true, false, not, ◌&&◌, Option, none,
  some, List, [], ◌∷◌, arith, ltb, leb, length, ◌==◌, nat_eq,
}
use smart_monitor_back_end.Base.Http.{ok, >>=-eq-ok, ok_injective}
use smart_monitor_back_end.Base.Json.{
  pos, negsuc, null, boolean, integer, float, text, array, object, Json, Fields, get_field,
  as_object, as_array, as_boolean, elements,
}
use smart_monitor_back_end.HistoryRecovery.{
  HistoryPage, history_page_limit, recovery_if, or_recovery, at_least, positive_int, acknowledged,
  check_records, counts, check_cursor, parse_history_page,
}

pub recovery_if-ok :
    (b : Bool) (message : String) {u : Unit {0}} → recovery_if b message ≡ ok u → b ≡ false
recovery_if-ok true message h = cc
recovery_if-ok false message h = refl

pub or_recovery-ok {ℓ} :
    {A : Type ℓ} (o : Option A) (message : String) {a : A}
    → or_recovery o message ≡ ok a
    → o ≡ some a
or_recovery-ok none message h = cc
or_recovery-ok (some b) message h = cc

abbrev pub number : Json → ℕ
number (integer (pos n)) = n
number _ = 0

-- record["sequence"]
abbrev pub sequence_of : Fields → ℕ
sequence_of row = number (get_field "sequence" row)

pub at_least-number :
    (least : ℕ) (value : Json) (n : ℕ)
    → at_least least value ≡ some n
    → (number value ≡ n) × (least ≤ n)
at_least-number least (integer (pos m)) n h = ground (arith, h)
at_least-number least (integer (negsuc m)) n h = cc
at_least-number least null n h = cc
at_least-number least (boolean b) n h = cc
at_least-number least (float x) n h = cc
at_least-number least (text s) n h = cc
at_least-number least (array xs) n h = cc
at_least-number least (object fs) n h = cc

-- The sequences of the rows grow from `a` on, and `last` is that of the last row, or `a`.
abbrev pub Ordered : ℕ → List Fields → ℕ → Type 0
Ordered a [] last = last ≡ a
Ordered a (r ∷ rs) last = (a < sequence_of r) × Ordered (sequence_of r) rs last

check_records-Ordered :
    (a : ℕ) (records : List Json) (rows : List Fields) (last : ℕ)
    → check_records a records ≡ ok (rows, last)
    → Ordered a rows last × (length rows ≡ length records)
unfolding check_records
check_records-Ordered a [] rows last h =
    let same = ok_injective ([], a) (rows, last) h in
    subst (λ p. Ordered a p.0 p.1 × (◌≡◌ {A = ℕ} (length p.0) 0)) same (refl, refl)
check_records-Ordered a (r ∷ rs) rows last h =
    let (row, e1, h1) =
      >>=-eq-ok (or_recovery (as_object r) "history record must be an object") _ h in
    let (sequence, e2, h2) = >>=-eq-ok (positive_int "sequence" (get_field "sequence" row)) _ h1 in
    let (_, e3, h3) =
      >>=-eq-ok (recovery_if (leb sequence a) "history sequences are not ordered") _ h2 in
    let (_, e4, h4) = >>=-eq-ok (positive_int "captured_at" (get_field "captured_at" row)) _ h3 in
    let (rest, e5, h5) = >>=-eq-ok (check_records sequence rs) _ h4 in
    let (same, _) = at_least-number 1 (get_field "sequence" row) sequence (or_recovery-ok _ _ e2) in
    let later = recovery_if-ok (leb sequence a) _ e3 in
    let (tail, size) = check_records-Ordered sequence rs rest.0 rest.1 e5 in
    subst (λ p. Ordered a p.0 p.1 × (length p.0 ≡ suc (length rs)))
      (ok_injective (row ∷ rest.0, rest.1) (rows, last) h5)
      (
        (ground (arith, same, later), subst (λ n. Ordered n rest.0 rest.1) (sym same) tail),
        omega (arith, size),
      )

-- What a page that starts after the sequence `after` is.
pub record IsPage (after : ℕ) (page : HistoryPage) : Type 0 where
  pub ordered : Ordered after page.records page.next_cursor
  pub short : length page.records ≤ history_page_limit
  pub full : page.has_more ≡ true → page.records ≢ []

check_cursor-IsPage :
    (after next last : ℕ) (more : Bool) (rows : List Fields) (page : HistoryPage)
    → Ordered after rows last
    → length rows ≤ history_page_limit
    → check_cursor after next more (rows, last) ≡ ok page
    → IsPage after page
check_cursor-IsPage after next last more [] page o s h = record {
  ordered = ground (arith, o, h);
  short = ground (arith, s, h);
  full = λ m. absurd (ground (arith, m, h));
}
check_cursor-IsPage after next last more (r ∷ rs) page o s h =
    let (_, e1, h1) =
      >>=-eq-ok (recovery_if (not (next == last)) "history cursor does not match the page") _ h in
    let same : next ≡ last = ground (arith, recovery_if-ok (not (next == last)) _ e1) in
    let (_, _, h2) =
      >>=-eq-ok (recovery_if (more && false) "empty history page cannot have more data") _ h1 in
    subst (IsPage after) (ok_injective _ page h2) (record {
      ordered = subst (λ n. Ordered after (r ∷ rs) n) (sym same) o;
      short = s;
      full = λ m. λ e. cc;
    })

-- A page that is accepted has at most two records; their sequences grow strictly from the cursor
-- on, the next cursor is the last of them, or the same cursor for a page without records, and a
-- page that announces more has a record.
pub parse_history_page-IsPage :
    (response : Json) (after : ℕ) (page : HistoryPage)
    → parse_history_page response after ≡ ok page
    → IsPage after page
unfolding parse_history_page
parse_history_page-IsPage response after page h =
    let (fields, _, h1) = >>=-eq-ok (or_recovery (acknowledged response) _) _ h in
    let (dat, _, h2) = >>=-eq-ok (or_recovery (as_object (get_field "data" fields)) _) _ h1 in
    let (records, _, h3) = >>=-eq-ok (or_recovery (as_array (get_field "records" dat)) _) _ h2 in
    let (_, e4, h4) =
      >>=-eq-ok (recovery_if (ltb history_page_limit (length (elements records))) _) _ h3 in
    let (_, _, h5) =
      >>=-eq-ok
        (recovery_if (not (counts (length (elements records)) (get_field "returned_count" dat))) _)
        _ h4 in
    let (next, _, h6) =
      >>=-eq-ok (or_recovery (at_least after (get_field "next_cursor" dat)) _) _ h5 in
    let (more, _, h7) = >>=-eq-ok (or_recovery (as_boolean (get_field "has_more" dat)) _) _ h6 in
    let (checked, e8, h8) = >>=-eq-ok (check_records after (elements records)) _ h7 in
    let (order, size) = check_records-Ordered after (elements records) checked.0 checked.1 e8 in
    let short = recovery_if-ok (ltb history_page_limit (length (elements records))) _ e4 in
    check_cursor-IsPage after next checked.1 more checked.0 page order (ground (arith, size, short))
      h8
