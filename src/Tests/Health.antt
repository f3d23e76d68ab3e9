-- ===== src/Tests/Health.antt =====
-- Runs of the monitor of the object store.
use kafscale.Base.{◌≡◌, refl, true, false, [], ◌∷◌, leb, ◌*◌, arith}
use kafscale.Base.Text.{text}
use kafscale.Health.{
  S3HealthConfig, S3HealthMonitor, healthy, unavailable, judge, record_operation, refresh,
}
use kafscale.Health.Window.{IsCurrent, record_operation-IsCurrent, refresh_recovers}

-- A window of 100, warnings from a fifth of errors on
abbrev config : S3HealthConfig
config = record {
  window = 100;
  latency_warn = 500;
  latency_crit = 3000;
  error_warn = λ errors count. leb count (errors * 5);
  error_crit = λ errors count. leb (count * 3) (errors * 5);
  max_samples = 2;
}

-- A failed upload at 10
abbrev pub failing : S3HealthMonitor
failing = record {
  cfg = config;
  samples = record { ts = 10; op = text "upload"; latency = 20; failed = true } ∷ [];
  state = unavailable;
  state_since = 10;
  avg_latency = 20;
  error_rate = (1, 1);
}

failing-IsCurrent : IsCurrent failing 10
unfolding judge
failing-IsCurrent = record {
  few = omega arith;
  recent = (omega arith, tt);
  in_order = (omega arith, tt, tt);
  judged = refl;
}

record_operation-IsCurrent_example :
    IsCurrent (record_operation (text "upload") 30 false 50 failing) 50
record_operation-IsCurrent_example =
    record_operation-IsCurrent (text "upload") 30 false 10 50 failing failing-IsCurrent
      (omega arith)

refresh_recovers_example : (refresh 110 failing).state ≡ healthy
refresh_recovers_example = refresh_recovers 110 failing (omega arith, tt)
