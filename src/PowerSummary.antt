-- ===== src/PowerSummary.antt =====
-- app/power_daily_summary.py: the summary of a completed day is replaced when measurements of it
-- arrive late. The local calendar and the figures of a summary (averages of floats) are parameters.
use smart_monitor_back_end.Base.{
  ℕ, Bool, true, false, not, ◌&&◌, List, [], ◌∷◌, ltb, leb, keep, if◌then◌else◌, ◌==◌, nat_eq,
}
use smart_monitor_back_end.Database.{PowerMeasurement}

-- `local_date_for_timestamp` and `_day_utc_bounds`, with dates as day numbers
pub record Calendar : Type 0 where
  pub local_date : ℕ → ℕ
  pub day_utc_bounds : ℕ → ℕ × ℕ

pub record PowerDailySummary (Figures : Type 0) : Type 0 where
  pub channel_id : ℕ
  pub summary_date : ℕ
  pub figures : Figures

abbrev pub insert_by_time : PowerMeasurement → List PowerMeasurement → List PowerMeasurement
insert_by_time m [] = m ∷ []
insert_by_time m (n ∷ ms) =
    if leb m.measured_at n.measured_at then m ∷ n ∷ ms else n ∷ insert_by_time m ms

-- .order_by(PowerMeasurement.measured_at.asc())
abbrev pub by_time : List PowerMeasurement → List PowerMeasurement
by_time [] = []
by_time (m ∷ ms) = insert_by_time m (by_time ms)

abbrev pub measured_on : ℕ → ℕ × ℕ → PowerMeasurement → Bool
measured_on channel_id (start_utc, end_utc) m =
    m.channel_id == channel_id && (leb start_utc m.measured_at && ltb m.measured_at end_utc)

module _ {Figures : Type 0} (calendar : Calendar)
    (figures_of : List PowerMeasurement → Figures) where
  abbrev pub with_summary :
      ℕ
      → ℕ
      → List PowerMeasurement
      → List (PowerDailySummary Figures)
      → List (PowerDailySummary Figures)
  with_summary channel_id summary_date [] summaries = summaries
  with_summary channel_id summary_date (m ∷ ms) summaries =
      record { channel_id = channel_id; summary_date = summary_date; figures = figures_of (m ∷ ms) }
      ∷ summaries

  abbrev pub of_day : ℕ → ℕ → PowerDailySummary Figures → Bool
  of_day channel_id summary_date s = s.channel_id == channel_id && s.summary_date == summary_date

  -- On the measurements and the summaries; the result says whether the day was rebuilt.
  unfoldable pub rebuild_completed_day_summary :
      ℕ
      → ℕ
      → ℕ
      → List PowerMeasurement
      → List (PowerDailySummary Figures)
      → Bool × List (PowerDailySummary Figures)
  rebuild_completed_day_summary channel_id summary_date current_local_date measurements summaries =
      if leb current_local_date summary_date then (false, summaries) else (
        true,
        with_summary channel_id summary_date
            (by_time
              (keep (measured_on channel_id (calendar.day_utc_bounds summary_date)) measurements))
            (keep (λ s. not (of_day channel_id summary_date s)) summaries),
      )
