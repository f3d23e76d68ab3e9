-- ===== src/Health/Window.antt =====
-- The window of S3HealthMonitor (pkg/broker/s3_health.go), and the state that goes with it.
use kafscale.Base.{
  ℕ, zero, suc, ◌+◌, ◌-◌, ◌≤◌, ◌<◌, ◌≡◌, refl, sym, ◌∙◌, Bool, List, [], ◌∷◌, ◌++◌, ltb, length,
  length-drop, drop, arith, Bool-cases, inl, inr,
}
use kafscale.Base.Bytes.{All, All-append_one}
use kafscale.Base.Maps.{Str}
use kafscale.Health.{
  S3HealthState, healthy, Sample, S3HealthMonitor, drop_old, set_state, judge, recompute, truncate,
  record_operation, refresh, average, rate,
}

-- In the order of time, none behind `now`.
abbrev pub InOrder : List Sample → ℕ → Type 0
InOrder [] now = Unit {0}
InOrder (s ∷ ss) now = (s.ts ≤ now) × All (λ (t : Sample). s.ts ≤ t.ts) ss × InOrder ss now

-- What an update leaves behind: no more samples than allowed, all of them inside the window and in
-- order, and the state that they call for.
pub record IsCurrent (m : S3HealthMonitor) (now : ℕ) : Type 0 where
  pub few : length m.samples ≤ m.cfg.max_samples
  pub recent : All (λ (s : Sample). now < s.ts + m.cfg.window) m.samples
  pub in_order : InOrder m.samples now
  pub judged : m.state ≡ judge m.cfg m.samples

InOrder-later : (ss : List Sample) (now later : ℕ) → now ≤ later → InOrder ss now → InOrder ss later
InOrder-later [] now later h o = tt
InOrder-later (s ∷ ss) now later h (le, all, o) = (omega arith, all, InOrder-later ss now later h o)

All-before : (ss : List Sample) (now : ℕ) → InOrder ss now → All (λ (s : Sample). s.ts ≤ now) ss
All-before [] now o = tt
All-before (s ∷ ss) now (le, all, o) = (le, All-before ss now o)

InOrder-append : (ss : List Sample) (s : Sample) → InOrder ss s.ts → InOrder (ss ++ s ∷ []) s.ts
InOrder-append [] s o = (omega arith, tt, tt)
InOrder-append (x ∷ ss) s (le, all, o) =
    (le, All-append_one (λ (t : Sample). x.ts ≤ t.ts) ss s all le, InOrder-append ss s o)

InOrder-drop : (n : ℕ) (ss : List Sample) (now : ℕ) → InOrder ss now → InOrder (drop n ss) now
InOrder-drop zero ss now o = o
InOrder-drop (suc n) [] now o = o
InOrder-drop (suc n) (s ∷ ss) now (le, all, o) = InOrder-drop n ss now o

drop_old-InOrder :
    (window now : ℕ) (ss : List Sample) → InOrder ss now → InOrder (drop_old window now ss) now
unfolding drop_old
drop_old-InOrder window now [] o = o
drop_old-InOrder window now (s ∷ ss) o = elim (Bool-cases (ltb now (s.ts + window))) [
  | inl t ↦ rw t o
  | inr f ↦ rw f (drop_old-InOrder window now ss o.2)
]

length-drop_old : (window now : ℕ) (ss : List Sample) → length (drop_old window now ss) ≤ length ss
unfolding drop_old
length-drop_old window now [] = omega arith
length-drop_old window now (s ∷ ss) = ground (arith, length-drop_old window now ss)

All-younger :
    (window now : ℕ) (s : Sample) (ss : List Sample)
    → now < s.ts + window
    → All (λ (t : Sample). s.ts ≤ t.ts) ss
    → All (λ (t : Sample). now < t.ts + window) ss
All-younger window now s [] h all = tt
All-younger window now s (t ∷ ss) h (le, all) = (omega arith, All-younger window now s ss h all)

drop_old-recent :
    (window now : ℕ) (ss : List Sample)
    → InOrder ss now
    → All (λ (t : Sample). now < t.ts + window) (drop_old window now ss)
unfolding drop_old
drop_old-recent window now [] o = tt
drop_old-recent window now (s ∷ ss) (le, all, o) = elim (Bool-cases (ltb now (s.ts + window))) [
  | inl t ↦
      let young : now < s.ts + window = ground arith in
      rw t (young, All-younger window now s ss young all)
  | inr f ↦ rw f (drop_old-recent window now ss o)
]

-- Setting a state sets it, and leaves the samples alone.
set_state-kept :
    (now : ℕ) (state : S3HealthState) (m : S3HealthMonitor)
    → let m' = set_state now state m in
      (m'.state ≡ state) × (m'.samples ≡ m.samples) × (m'.cfg ≡ m.cfg)
unfolding set_state
set_state-kept now state m = ground arith

drop_old-drop_old :
    (window now : ℕ) (ss : List Sample)
    → drop_old window now (drop_old window now ss) ≡ drop_old window now ss
unfolding drop_old
drop_old-drop_old window now [] = refl
drop_old-drop_old window now (s ∷ ss) = elim (Bool-cases (ltb now (s.ts + window))) [
  | inl t ↦ rw (t, drop_old, t) refl
  | inr f ↦ rw (f, drop_old) (drop_old-drop_old window now ss)
]

-- A second look at the same time finds the same state.
pub refresh-state :
    (now : ℕ) (m : S3HealthMonitor) → (refresh now (refresh now m)).state ≡ (refresh now m).state
unfolding refresh recompute truncate
refresh-state now m =
    let left : List Sample = drop_old m.cfg.window now m.samples in
    let (state, samples, cfg) =
      set_state-kept now (judge m.cfg left)
        (record m { samples = left; avg_latency = average left; error_rate = rate left }) in
    (set_state-kept now _ _).0
    ∙ rw (samples, cfg, drop_old-drop_old m.cfg.window now m.samples) (sym state)

-- Bringing a monitor up to date.
refresh-IsCurrent :
    (now : ℕ) (m : S3HealthMonitor)
    → length m.samples ≤ m.cfg.max_samples
    → InOrder m.samples now
    → IsCurrent (refresh now m) now
unfolding refresh recompute truncate
refresh-IsCurrent now m few o =
    let left : List Sample = drop_old m.cfg.window now m.samples in
    let (state, samples, cfg) =
      set_state-kept now (judge m.cfg left)
        (record m { samples = left; avg_latency = average left; error_rate = rate left }) in
    record {
      few = rw (samples, cfg) (omega (arith, length-drop_old m.cfg.window now m.samples));
      recent = rw (samples, cfg) (drop_old-recent m.cfg.window now m.samples o);
      in_order = rw samples (drop_old-InOrder m.cfg.window now m.samples o);
      judged = rw (state, samples, cfg) refl;
    }

-- An operation recorded no earlier than the last one leaves a monitor that is current again: no more
-- samples than allowed, all of them inside the window and in order, and the state that they call for.
pub record_operation-IsCurrent :
    (op : Str) (latency : ℕ) (failed : Bool) (before now : ℕ) (m : S3HealthMonitor)
    → IsCurrent m before
    → before ≤ now
    → IsCurrent (record_operation op latency failed now m) now
unfolding record_operation recompute refresh
record_operation-IsCurrent op latency failed before now m c le =
    let sample : Sample = record { ts = now; op = op; latency = latency; failed = failed } in
    let all : List Sample = m.samples ++ sample ∷ [] in
    let ordered : InOrder all now =
      InOrder-append m.samples sample (InOrder-later m.samples before now le c.in_order) in
    elim (Bool-cases (ltb m.cfg.max_samples (length all))) [
      | inl many ↦ rw many (
          refresh-IsCurrent now (record m { samples = drop (length all - m.cfg.max_samples) all })
            (omega (arith, length-drop (length all - m.cfg.max_samples) all))
            (InOrder-drop (length all - m.cfg.max_samples) all now ordered))
      | inr few ↦ rw few (refresh-IsCurrent now (record m { samples = all }) (ground arith) ordered)
    ]

drop_old-none :
    (window now : ℕ) (ss : List Sample)
    → All (λ (s : Sample). s.ts + window ≤ now) ss
    → drop_old window now ss ≡ []
unfolding drop_old
drop_old-none window now [] h = refl
drop_old-none window now (s ∷ ss) h = ground (arith, h.0, drop_old-none window now ss h.1)

-- When the window has passed since every sample, the monitor is healthy again, whatever it was.
pub refresh_recovers :
    (now : ℕ) (m : S3HealthMonitor)
    → All (λ (s : Sample). s.ts + m.cfg.window ≤ now) m.samples
    → (refresh now m).state ≡ healthy
unfolding refresh truncate recompute judge
refresh_recovers now m h =
    rw (drop_old-none m.cfg.window now m.samples h) (set_state-kept now healthy _).0
