-- ===== src/Storage/Log/Order.antt =====
-- Offsets in order: of the batches in the buffer of a partition log, and of its segments.
use kafscale.Base.{ℕ, suc, ◌+◌, ◌≤◌, ◌≡◌, sym, ap, List, [], ◌∷◌, ◌++◌, arith, ◌∙◌}
use kafscale.Base.Int.{pos}
use kafscale.Storage.Types.{RecordBatch}
use kafscale.Storage.Segment.{last_batch}
use kafscale.Storage.Lookup.{SegmentRange}

-- The batches take the offsets from n up to, but not including, m, with no gap.
abbrev pub Chain : ℕ → List RecordBatch → ℕ → Type 0
Chain n [] m = n ≡ m
Chain n (b ∷ bs) m =
    (d : ℕ) × (b.base_offset ≡ pos n) × (b.last_offset_delta ≡ pos d) × Chain (n + d + 1) bs m

-- The segments lie between lo and hi, each behind the one before.
abbrev pub Ranges : ℕ → List SegmentRange → ℕ → Type 0
Ranges lo [] hi = lo ≤ hi
Ranges lo (s ∷ ss) hi =
    (b : ℕ) × (e : ℕ) × (s.base_offset ≡ pos b)
    × (s.last_offset ≡ pos e)
    × (lo ≤ b)
    × (b ≤ e)
    × Ranges (suc e) ss hi

pub Chain-append :
    (n k d m : ℕ) (bs : List RecordBatch) (b : RecordBatch)
    → Chain n bs k
    → b.base_offset ≡ pos k
    → b.last_offset_delta ≡ pos d
    → k + d + 1 ≡ m
    → Chain n (bs ++ b ∷ []) m
Chain-append n k d m [] b c base delta e = (d, base ∙ ap pos (sym c), delta, rw c e)
Chain-append n k d m (x ∷ bs) b (d', base', delta', c) base delta e =
    (d', base', delta', Chain-append (n + d' + 1) k d m bs b c base delta e)

pub Chain-le : (n m : ℕ) (bs : List RecordBatch) → Chain n bs m → n ≤ m
Chain-le n m [] c = omega arith
Chain-le n m (b ∷ bs) (d, _, _, c) = omega (arith, Chain-le (n + d + 1) m bs c)

pub last_batch-Chain :
    (n m : ℕ) (b : RecordBatch) (bs : List RecordBatch)
    → Chain n (b ∷ bs) m
    → (k : ℕ) × (d : ℕ) × ((last_batch b bs).base_offset ≡ pos k)
      × ((last_batch b bs).last_offset_delta ≡ pos d)
      × (n ≤ k)
      × (k + d + 1 ≡ m)
unfolding last_batch
last_batch-Chain n m b [] (d, base, delta, c) = (n, d, base, delta, omega arith, c)
last_batch-Chain n m b (x ∷ bs) (d, base, delta, c) =
    let (k, d', base', delta', le, e) = last_batch-Chain (n + d + 1) m x bs c in
    (k, d', base', delta', omega arith, e)

pub Ranges-mono :
    (lo hi hi' : ℕ) (ss : List SegmentRange) → hi ≤ hi' → Ranges lo ss hi → Ranges lo ss hi'
Ranges-mono lo hi hi' [] h r = omega arith
Ranges-mono lo hi hi' (s ∷ ss) h (b, e, base, last, le, le', r) =
    (b, e, base, last, le, le', Ranges-mono (suc e) hi hi' ss h r)

pub Ranges-append :
    (lo hi b e : ℕ) (ss : List SegmentRange) (s : SegmentRange)
    → Ranges lo ss hi
    → s.base_offset ≡ pos b
    → s.last_offset ≡ pos e
    → hi ≤ b
    → b ≤ e
    → Ranges lo (ss ++ s ∷ []) (suc e)
Ranges-append lo hi b e [] s r base last h le = (b, e, base, last, omega arith, le, omega arith)
Ranges-append lo hi b e (x ∷ ss) s (b', e', base', last', l, l', r) base last h le =
    (b', e', base', last', l, l', Ranges-append (suc e') hi b e ss s r base last h le)
