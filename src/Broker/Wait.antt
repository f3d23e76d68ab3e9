-- ===== src/Broker/Wait.antt =====
-- waitForFetchData of cmd/broker/main.go: a fetch at the end of a partition waits for more.
use kafscale.Base.{
  ℕ, ◌+◌, Bool, true, ◌||◌, not, List, [], ◌∷◌, Option, none, some, Result, ok, err, leb, ◌==◌,
  if◌then◌else◌,
}
use kafscale.Base.Int.{ℤ, pos, ltb_ℤ}
use kafscale.Base.Maps.{Str, str_Key}
use kafscale.Broker.Types.{StoreError, context_done, Broker, Handler, is_unknown_topic}

-- What ends a sleep of waitForFetchData: its timer, or the context with its error. Other requests
-- ran meanwhile, so the state is another one.
pub data Wake (M S : Type 0) : Type 0 where
  timer : ℕ → Handler M S → Wake M S
  done : ℕ → Str → Handler M S → Wake M S

-- A fetch between two calls: the time, the state and what will end its sleeps.
pub record Fetching (M S : Type 0) : Type 0 where
  pub now : ℕ
  pub handler : Handler M S
  pub wakes : List (Wake M S)

-- What waitForFetchData failed with, if anything, taken for a watermark: `none` for an unknown topic.
abbrev pub watermark_after : Bool → ℤ → ℤ → Result StoreError (Unit {0}) → Option ℤ
watermark_after available offset next (ok _) = some next
watermark_after available offset next (err (context_done t)) = some next
watermark_after available offset next (err e) =
    if is_unknown_topic e then none else (if not available then some offset else some (pos 0))

module _ {M S : Type 0} (b : Broker M S) where
  -- The store's answer, 0 in place of the offset behind an error.
  unfoldable pub ask_next : Str → ℤ → Handler M S → Handler M S × ℤ × Result StoreError (Unit {0})
  ask_next topic partition h =
      let (m, next) = b.api.next_offset topic partition h.store in
      (
        record h { store = m },
        elim next [ ok n ↦ n | err e ↦ pos 0 ],
        elim next [ ok n ↦ ok tt | err e ↦ err e ],
      )

  abbrev pub failed_or_ahead : ℤ → ℤ → Result StoreError (Unit {0}) → Bool
  failed_or_ahead offset next (ok _) = ltb_ℤ offset next
  failed_or_ahead offset next (err e) = true

  -- The loop, from its test of the time that remains. It sleeps once for each wake; `none` if it still
  -- sleeps after the last one.
  unfoldable pub wait_loop :
      Str
      → ℤ
      → ℤ
      → ℕ
      → ℤ
      → ℕ
      → Handler M S
      → List (Wake M S)
      → Option (Fetching M S × ℤ × Result StoreError (Unit {0}))
  wait_loop topic partition offset deadline next now h [] =
      if leb deadline now
      then some (record { now = now; handler = h; wakes = [] }, next, ok tt)
      else none
  wait_loop topic partition offset deadline next now h (done later reason h' ∷ wakes) =
      if leb deadline now
      then some
          (record { now = now; handler = h; wakes = done later reason h' ∷ wakes }, next, ok tt)
      else some
          (record { now = later; handler = h'; wakes = wakes }, next, err (context_done reason))
  wait_loop topic partition offset deadline next now h (timer later h' ∷ wakes) =
      let (h'', next', failed) = ask_next topic partition h' in
      let again = wait_loop topic partition offset deadline next' later h'' wakes in
      if leb deadline now
      then some (record { now = now; handler = h; wakes = timer later h' ∷ wakes }, next, ok tt)
      else (if failed_or_ahead offset next' failed
          then some (record { now = later; handler = h''; wakes = wakes }, next', failed)
          else again)

  unfoldable pub wait_for_fetch_data :
      Str → ℤ → ℤ → ℕ → Fetching M S → Option (Fetching M S × ℤ × Result StoreError (Unit {0}))
  wait_for_fetch_data topic partition offset max_wait f =
      let (h, next, failed) = ask_next topic partition f.handler in
      if failed_or_ahead offset next failed || max_wait == 0
      then some (record f { handler = h }, next, failed)
      else wait_loop topic partition offset (f.now + max_wait) next f.now h f.wakes
