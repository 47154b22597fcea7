-- ===== src/Agent/Schedule/Times.antt =====
-- The times and the kinds of schedules (internal/agent/schedule.go).
use k8s_native_fast_gpu_chec.Prelude.{
  ◌<◌, ℤ, pos, negsuc, String, ◌≡◌, refl, ◌⊎◌, true, Result, ok, err, arith,
}
use k8s_native_fast_gpu_chec.Api.{Time}
use k8s_native_fast_gpu_chec.Text.Trim.{trim_space}
use k8s_native_fast_gpu_chec.Agent.Libs.{Libs}
use k8s_native_fast_gpu_chec.Agent.Schedule.{
  looks_like_cron, zero_time, next_cron, next_interval, next_run, recurs, is_one_shot,
}

-- What robfig/cron says of `Next`: a time after the given one, or the zero time if there is none.
abbrev pub CronNext : Libs → Type 0
CronNext L = (c : L.Cron) (from : Time) → (from < L.next c from) ⊎ (L.next c from ≡ zero_time)

module _ (L : Libs) where
  next_cron-lt :
      CronNext L
      → (r : Result L.Cron) (from t : Time) → next_cron L from r ≡ ok (t, true)
      → (from < t) ⊎ (t ≡ zero_time)
  unfolding next_cron
  next_cron-lt after (err e) from t h = cc
  next_cron-lt after (ok c) from t h = ground (arith, after c from)

  next_interval-lt :
      (r : Result ℤ) (from t : Time) → next_interval L from r ≡ ok (t, true) → from < t
  unfolding next_interval
  next_interval-lt (err e) from t h = cc
  next_interval-lt (ok (pos n)) from t h = ground arith
  next_interval-lt (ok (negsuc n)) from t h = ground arith

  -- The next time of a recurring schedule is after the given time. The one exception is a cron
  -- expression that no date fits: there the next time is Go's zero time.
  pub next_run-lt :
      CronNext L
      → (s : String) (from t : Time) → next_run L s from ≡ ok (t, true)
      → (from < t) ⊎ ((looks_like_cron (trim_space s) ≡ true) × (t ≡ zero_time))
  unfolding next_run
  next_run-lt after s from t h = ground (
    arith,
    next_cron-lt after (L.parse_cron (trim_space s)) from t,
    next_interval-lt (L.parse_duration (trim_space s)) from t,
  )

  recurs-next_cron :
      (r : Result L.Cron) (a b : Time) → recurs (next_cron L a r) ≡ recurs (next_cron L b r)
  unfolding next_cron
  recurs-next_cron (err e) a b = refl
  recurs-next_cron (ok c) a b = refl

  recurs-next_interval :
      (r : Result ℤ) (a b : Time) → recurs (next_interval L a r) ≡ recurs (next_interval L b r)
  unfolding next_interval
  recurs-next_interval (err e) a b = refl
  recurs-next_interval (ok d) a b = ground arith

  -- `IsOneShot` gives the same answer at every time, so reading the clock a second time is harmless.
  pub is_one_shot_stable : (s : String) (a b : Time) → is_one_shot L s a ≡ is_one_shot L s b
  unfolding is_one_shot next_run
  is_one_shot_stable s a b = ground (
    arith,
    recurs-next_cron (L.parse_cron (trim_space s)) a b,
    recurs-next_interval (L.parse_duration (trim_space s)) a b,
  )
