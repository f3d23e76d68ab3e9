-- ===== src/Broker/Waiting.antt =====
-- A fetch at the end of a partition (waitForFetchData and handleFetch of cmd/broker/main.go): how its wait
-- ends, and what it reads.
use kafscale.Base.{
  ℕ, ◌≡◌, ◌≢◌, ◌⊎◌, refl, subst, true, false, List, [], ◌∷◌, Option, none, some, Result, ok, err,
  leb, ◌+◌, arith, Bool-cases, inl, inr, Option-cases, Result-cases, ◌==◌,
}
use kafscale.Base.Int.{ℤ, pos, ltb_ℤ, eqb_ℤ}
use kafscale.Base.Maps.{Str}
use kafscale.Storage.Log.{PartitionLog}
use kafscale.Storage.Log.Reads.{read_log}
use kafscale.Protocol.Request.Data.{FetchPartition}
use kafscale.Protocol.Response.Data.{FetchPartitionResponse}
use kafscale.Broker.Types.{StoreError, Broker, Handler, observe}
use kafscale.Broker.Logs.{
  Round, found, retry, no_store, no_restore, get_partition_log, check_health,
}
use kafscale.Broker.Produce.{is_healthy}
use kafscale.Broker.Wait.{
  Wake, timer, done, Fetching, ask_next, failed_or_ahead, wait_loop, wait_for_fetch_data,
  watermark_after,
}
use kafscale.Broker.Fetch.{read_at, read_waited, fetch_from, fetch_partition}

-- The sleeps go on until the deadline, or the context is done.
abbrev pub Suffices : {M S : Type 0} → ℕ → ℕ → List (Wake M S) → Type 0
Suffices deadline now [] = leb deadline now ≡ true
Suffices deadline now (done later reason h ∷ wakes) = Unit {0}
Suffices deadline now (timer later h ∷ wakes) =
    (leb deadline now ≡ true) ⊎ Suffices deadline later wakes

-- Why a wait is over: the store failed or the context is done, there is something to read, or the time
-- is up.
abbrev pub IsOver : ℤ → ℕ → ℕ → ℤ → Result StoreError (Unit {0}) → Type 0
IsOver offset deadline now next (err e) = Unit {0}
IsOver offset deadline now next (ok _) = (ltb_ℤ offset next ≡ true) ⊎ (leb deadline now ≡ true)

rest-Suffices :
    {M S : Type 0} (deadline now later : ℕ) (h : Handler M S) (wakes : List (Wake M S))
    → leb deadline now ≡ false
    → Suffices deadline now (timer later h ∷ wakes)
    → Suffices deadline later wakes
rest-Suffices deadline now later h wakes early (inl up) = cc
rest-Suffices deadline now later h wakes early (inr rest) = rest

-- The wait is over, for one of these reasons; `none` would be one that still sleeps.
abbrev pub Ends :
    {M S : Type 0} → ℤ → ℕ → Option (Fetching M S × ℤ × Result StoreError (Unit {0})) → Type 0
Ends offset deadline none = ⊥
Ends offset deadline (some (f, next, failed)) = IsOver offset deadline f.now next failed

module _ {M S : Type 0} (b : Broker M S) (topic : Str) (partition offset : ℤ) where
  failed_or_ahead-IsOver :
      (deadline now : ℕ) (next : ℤ) (failed : Result StoreError (Unit {0}))
      → failed_or_ahead b offset next failed ≡ true
      → IsOver offset deadline now next failed
  failed_or_ahead-IsOver deadline now next (ok _) h = inl h
  failed_or_ahead-IsOver deadline now next (err e) h = tt

  due-IsOver :
      (deadline now : ℕ) (next : ℤ) (failed : Result StoreError (Unit {0}))
      → leb deadline now ≡ true
      → IsOver offset deadline now next failed
  due-IsOver deadline now next (ok _) h = inr h
  due-IsOver deadline now next (err e) h = tt

  wait_loop-Ends :
      (deadline : ℕ) (next : ℤ) (now : ℕ) (h : Handler M S) (wakes : List (Wake M S))
      → Suffices deadline now wakes
      → Ends offset deadline (wait_loop b topic partition offset deadline next now h wakes)
  unfolding wait_loop
  wait_loop-Ends deadline next now h [] s = rw (s, wait_loop) (inr s)
  wait_loop-Ends deadline next now h (done later reason h' ∷ wakes) s =
      elim (Bool-cases (leb deadline now)) [
        | inl up ↦ rw (up, wait_loop) (inr up)
        | inr early ↦ rw (early, wait_loop) tt
      ]
  wait_loop-Ends deadline next now h (timer later h' ∷ wakes) s =
      elim (Bool-cases (leb deadline now)) [
        | inl up ↦ rw (up, wait_loop) (inr up)
        | inr early ↦
            let (h'', next', failed) = ask_next b topic partition h' in
            elim (Bool-cases (failed_or_ahead b offset next' failed)) [
              | inl over ↦
                  rw (early, wait_loop, over)
                    (failed_or_ahead-IsOver deadline later next' failed over)
              | inr more ↦
                  rw (early, wait_loop, more)
                    (wait_loop-Ends deadline next' later h'' wakes
                      (rest-Suffices deadline now later h' wakes early s))
            ]
      ]

  -- A fetch that waits comes back, and not too early: if its sleeps go on until the time is up, or the
  -- context is done, then waitForFetchData returns, either with an error, or with a next offset behind the
  -- offset asked for, or when the time is up. With no time to wait it returns at once.
  pub wait_for_fetch_data-Ends :
      (max_wait : ℕ) (f : Fetching M S)
      → Suffices (f.now + max_wait) f.now f.wakes
      → Ends offset (f.now + max_wait) (wait_for_fetch_data b topic partition offset max_wait f)
  unfolding wait_for_fetch_data
  wait_for_fetch_data-Ends max_wait f s =
      let (h, next, failed) = ask_next b topic partition f.handler in
      elim (Bool-cases (failed_or_ahead b offset next failed)) [
        | inl over ↦
            rw (over, wait_for_fetch_data)
              (failed_or_ahead-IsOver (f.now + max_wait) f.now next failed over)
        | inr more ↦ elim (Bool-cases (max_wait == 0)) [
          | inl zero_wait ↦
              rw (more, wait_for_fetch_data, zero_wait)
                (due-IsOver (f.now + max_wait) f.now next failed (ground arith))
          | inr wait ↦
              rw (more, wait_for_fetch_data, wait)
                (wait_loop-Ends (f.now + max_wait) next f.now h f.wakes s)
        ]
      ]

-- The records of an answer lie below its high watermark, and it has no error code.
abbrev pub IsBelow : FetchPartition → FetchPartitionResponse → Type 0
IsBelow p r =
    r.record_set ≢ [] → (ltb_ℤ p.fetch_offset r.high_watermark ≡ true) × (r.error_code ≡ pos 0)

abbrev AllBelow :
    {M S : Type 0} → FetchPartition → Option (Fetching M S × FetchPartitionResponse) → Type 0
AllBelow p none = Unit {0}
AllBelow p (some (f, r)) = IsBelow p r

module _ {M S : Type 0} (b : Broker M S) where
  above : (x y : ℤ) → ltb_ℤ y x ≡ false → eqb_ℤ x y ≡ false → ltb_ℤ x y ≡ true
  above x y h k = ground arith

  read_at-IsBelow :
      (now : ℕ) (l : PartitionLog) (p : FetchPartition) (watermark : ℤ) (h : Handler M S)
      → IsBelow p (read_at b now l p watermark h).1
  unfolding read_at
  read_at-IsBelow now l p watermark h = elim (Bool-cases (ltb_ℤ watermark p.fetch_offset)) [
    | inl behind ↦ rw (behind, read_at, IsBelow) (λ ne. absurd (ne refl))
    | inr reached ↦ elim (Bool-cases (eqb_ℤ p.fetch_offset watermark)) [
      | inl at_end ↦ rw (reached, at_end, read_at, IsBelow) (λ ne. absurd (ne refl))
      | inr before ↦
          elim (Result-cases
            (read_log (observe now b.latency b.s3) l p.fetch_offset p.max_bytes h.world).1) [
              | inl (bs, e) ↦
                  rw (reached, before, read_at, e, IsBelow)
                    (λ ne. (above p.fetch_offset watermark reached before, refl))
              | inr (x, e) ↦
                  rw (reached, before, read_at, e, IsBelow) (λ ne. absurd (ne (ground arith)))
            ]
    ]
  ]

  read_waited-IsBelow :
      (topic : Str) (l : PartitionLog) (p : FetchPartition)
      (waited : Fetching M S × ℤ × Result StoreError (Unit {0}))
      → IsBelow p (read_waited b topic l p waited).1
  unfolding read_waited
  read_waited-IsBelow topic l p (f, next, failed) =
      elim (Option-cases
        (watermark_after (b.api.available f.handler.store) p.fetch_offset next failed)) [
          | inl unknown ↦ rw (unknown, read_waited, IsBelow) (λ ne. absurd (ne refl))
          | inr (watermark, e) ↦ rw (e, read_waited) (read_at-IsBelow f.now _ p watermark f.handler)
        ]

  fetch_from-AllBelow :
      (topic : Str) (max_wait : ℕ) (p : FetchPartition) (round : Round) (f : Fetching M S)
      → AllBelow p (fetch_from b topic max_wait p round f)
  unfolding fetch_from
  fetch_from-AllBelow topic max_wait p (found l) f =
      elim (Option-cases (wait_for_fetch_data b topic p.partition p.fetch_offset max_wait f)) [
        | inl asleep ↦ rw (asleep, fetch_from) tt
        | inr (waited, e) ↦ rw (e, fetch_from) (read_waited-IsBelow topic l p waited)
      ]
  fetch_from-AllBelow topic max_wait p retry f = λ ne. absurd (ne refl)
  fetch_from-AllBelow topic max_wait p (no_store e) f = λ ne. absurd (ne refl)
  fetch_from-AllBelow topic max_wait p (no_restore e) f = λ ne. absurd (ne refl)

  fetch_partition-AllBelow :
      (rounds : ℕ) (topic : Str) (max_wait : ℕ) (p : FetchPartition) (f : Fetching M S)
      → AllBelow p (fetch_partition b rounds topic max_wait p f)
  unfolding fetch_partition
  fetch_partition-AllBelow rounds topic max_wait p f =
      let (h, state) = check_health f.now f.handler in
      elim (Bool-cases (is_healthy state)) [
        | inr ill ↦ rw (ill, fetch_partition) (λ ne. absurd (ne refl))
        | inl well ↦ elim (Option-cases (get_partition_log b rounds f.now topic p.partition h)) [
          | inl spins ↦ rw (well, fetch_partition, spins) tt
          | inr ((h', round), e) ↦
              rw (well, fetch_partition, e)
                (fetch_from-AllBelow topic max_wait p round (record f { handler = h' }))
        ]
      ]

  -- A partition that Fetch answers with records has no error code, and its high watermark lies above the
  -- offset that was asked for.
  pub fetch_partition_below :
      (rounds : ℕ) (topic : Str) (max_wait : ℕ) (p : FetchPartition) (f f' : Fetching M S)
      (r : FetchPartitionResponse)
      → fetch_partition b rounds topic max_wait p f ≡ some (f', r)
      → r.record_set ≢ []
      → (ltb_ℤ p.fetch_offset r.high_watermark ≡ true) × (r.error_code ≡ pos 0)
  fetch_partition_below rounds topic max_wait p f f' r e ne =
      subst (λ out. AllBelow p out) e (fetch_partition-AllBelow rounds topic max_wait p f) ne
