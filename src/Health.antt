-- ===== src/Health.antt =====
-- pkg/broker/s3_health.go: the state of the object store, judged by the operations of a recent window.
-- The lock of the monitor makes each method a step. Latencies are numbers of nanoseconds whose sum does
-- not overflow. Error rates are compared as floats in the source: the two comparisons are parameters.
pub mod Window
use kafscale.Base.{
  ℕ, zero, suc, ◌+◌, ◌-◌, ◌*◌, ◌/◌, Bool, true, false, ◌||◌, not, List, [], ◌∷◌, ◌++◌, ltb, leb,
  ◌==◌, if◌then◌else◌, length, drop,
}
use kafscale.Base.Maps.{Str}

pub data S3HealthState : Type 0 where
  healthy degraded unavailable : S3HealthState

-- `error_warn errors count` is `float64(errors) / float64(count) >= cfg.ErrorWarn`, and likewise for
-- ErrorCrit.
pub record S3HealthConfig : Type 0 where
  pub window : ℕ
  pub latency_warn : ℕ
  pub latency_crit : ℕ
  pub error_warn : ℕ → ℕ → Bool
  pub error_crit : ℕ → ℕ → Bool
  pub max_samples : ℕ

pub record Sample : Type 0 where
  pub ts : ℕ
  pub op : Str
  pub latency : ℕ
  pub failed : Bool

-- The error rate is kept as the two numbers that it is the quotient of.
pub record S3HealthMonitor : Type 0 where
  pub cfg : S3HealthConfig
  pub samples : List Sample
  pub state : S3HealthState
  pub state_since : ℕ
  pub avg_latency : ℕ
  pub error_rate : ℕ × ℕ

abbrev or_default : ℕ → ℕ → ℕ
or_default zero d = d
or_default (suc n) d = suc n

-- The durations and the number of samples that are not positive get defaults. Those of ErrorWarn and
-- ErrorCrit are in the two comparisons of the configuration.
unfoldable pub new_s3_health_monitor : S3HealthConfig → ℕ → S3HealthMonitor
new_s3_health_monitor cfg now = record {
  cfg = record cfg {
    window = or_default cfg.window 60000000000;
    latency_warn = or_default cfg.latency_warn 500000000;
    latency_crit = or_default cfg.latency_crit 3000000000;
    max_samples = or_default cfg.max_samples 512;
  };
  samples = [];
  state = healthy;
  state_since = now;
  avg_latency = 0;
  error_rate = (0, 1);
}

-- The samples from the first that is younger than the window.
unfoldable pub drop_old : ℕ → ℕ → List Sample → List Sample
drop_old window now [] = []
drop_old window now (s ∷ ss) = if ltb now (s.ts + window) then s ∷ ss else drop_old window now ss

abbrev total_latency : List Sample → ℕ
total_latency [] = 0
total_latency (s ∷ ss) = s.latency + total_latency ss

abbrev error_count : List Sample → ℕ
error_count [] = 0
error_count (s ∷ ss) = (if s.failed then 1 else 0) + error_count ss

abbrev same_state : S3HealthState → S3HealthState → Bool
same_state healthy healthy = true
same_state degraded degraded = true
same_state unavailable unavailable = true
same_state _ _ = false

unfoldable pub set_state : ℕ → S3HealthState → S3HealthMonitor → S3HealthMonitor
set_state now state m =
    if same_state state m.state then m else record m { state = state; state_since = now }

-- The state that the samples call for.
unfoldable pub judge : S3HealthConfig → List Sample → S3HealthState
judge cfg [] = healthy
judge cfg (s ∷ ss) =
    let count = length (s ∷ ss) in
    let avg = total_latency (s ∷ ss) / count in
    let errors = error_count (s ∷ ss) in
    if leb cfg.latency_crit avg || cfg.error_crit errors count
    then unavailable
    else (if leb cfg.latency_warn avg || cfg.error_warn errors count then degraded else healthy)

abbrev pub average : List Sample → ℕ
average [] = 0
average (s ∷ ss) = total_latency (s ∷ ss) / length (s ∷ ss)

abbrev pub rate : List Sample → ℕ × ℕ
rate [] = (0, 1)
rate (s ∷ ss) = (error_count (s ∷ ss), length (s ∷ ss))

unfoldable pub recompute : ℕ → S3HealthMonitor → S3HealthMonitor
recompute now m =
    set_state now (judge m.cfg m.samples)
      (record m { avg_latency = average m.samples; error_rate = rate m.samples })

unfoldable pub truncate : ℕ → S3HealthMonitor → S3HealthMonitor
truncate now m = record m { samples = drop_old m.cfg.window now m.samples }

unfoldable pub record_operation : Str → ℕ → Bool → ℕ → S3HealthMonitor → S3HealthMonitor
record_operation op latency failed now m =
    let sample : Sample = record { ts = now; op = op; latency = latency; failed = failed } in
    let all = m.samples ++ sample ∷ [] in
    let kept =
      if ltb m.cfg.max_samples (length all)
      then drop (length all - m.cfg.max_samples) all
      else all in
    recompute now (truncate now (record m { samples = kept }))

-- Snapshot and State bring the monitor up to date, and read it.
unfoldable pub refresh : ℕ → S3HealthMonitor → S3HealthMonitor
refresh now m = recompute now (truncate now m)

pub record S3HealthSnapshot : Type 0 where
  pub state : S3HealthState
  pub since : ℕ
  pub avg_latency : ℕ
  pub error_rate : ℕ × ℕ

unfoldable pub snapshot : ℕ → S3HealthMonitor → S3HealthMonitor × S3HealthSnapshot
snapshot now m =
    let m' = refresh now m in
    (
      m',
      record {
        state = m'.state;
        since = m'.state_since;
        avg_latency = m'.avg_latency;
        error_rate = m'.error_rate;
      },
    )
