-- ===== src/Agent/Schedule.antt =====
-- internal/agent/schedule.go
pub mod Times
use text.Mathlib.Text.{starts_with}
use k8s_native_fast_gpu_chec.Prelude.{
  ◌+◌, ℤ, pos, String, Bool, true, false, not, Result, ok, err, is_pos, leb, length, ◌==◌,
  if◌then◌else◌,
}
use k8s_native_fast_gpu_chec.Api.{Time}
use k8s_native_fast_gpu_chec.Text.Trim.{trim_space, fields}
use k8s_native_fast_gpu_chec.Agent.Libs.{Libs}

-- `looksLikeCron`
unfoldable pub looks_like_cron : String → Bool
looks_like_cron s = if starts_with s "@" then true else leb 5 (length (fields s))

-- `time.Time{}`
abbrev pub zero_time : Time
zero_time = 0

-- `from.Add(d)` for `d > 0`.
abbrev pub add_duration : Time → ℤ → Time
add_duration from (pos n) = from + n
add_duration from d = from

abbrev pub recurs : Result (Time × Bool) → Bool
recurs (err t) = false
recurs (ok (t, recurring)) = recurring

module _ (L : Libs) where
  -- `ParseSchedule`
  unfoldable pub parse_schedule : String → Result ℤ
  parse_schedule s = if s == "" then ok (pos 0) else L.parse_duration s

  -- The cron branch of `NextRun`.
  unfoldable pub next_cron : Time → Result L.Cron → Result (Time × Bool)
  next_cron from (err t) = err t
  next_cron from (ok sched) = ok (L.next sched from, true)

  -- The duration branch of `NextRun`.
  unfoldable pub next_interval : Time → Result ℤ → Result (Time × Bool)
  next_interval from (err t) = err t
  next_interval from (ok d) =
      if is_pos d then ok (add_duration from d, true) else ok (zero_time, false)

  -- `NextRun`: the next time and whether the schedule recurs.
  unfoldable pub next_run : String → Time → Result (Time × Bool)
  unfolding next_cron next_interval
  next_run schedule from =
      let s = trim_space schedule in
      if s == ""
      then ok (zero_time, false)
      else if looks_like_cron s
      then next_cron from (L.parse_cron s)
      else next_interval from (L.parse_duration s)

  -- `IsOneShot`, at the time that it reads from the clock.
  unfoldable pub is_one_shot : String → Time → Bool
  is_one_shot s now = not (recurs (next_run s now))
