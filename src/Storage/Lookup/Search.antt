-- ===== src/Storage/Lookup/Search.antt =====
-- findIndexEntry of pkg/storage/log.go.
use kafscale.Base.{
  sym, ℕ, zero, suc, ◌+◌, ◌-◌, ◌/◌, ◌≤◌, ◌<◌, ◌≡◌, refl, ap, true, ◌&&◌, List, [], ◌∷◌, ◌⊎◌, inl,
  inr, arith, ltb, length, Option, some, Bool-cases,
}
use kafscale.Base.Int.{ℤ, ◌≤ℤ◌, ◌<ℤ◌, eqb_ℤ, eqb_ℤ_iff, leb_ℤ, ltb_ℤ}
use kafscale.Storage.Types.{IndexEntry}
use kafscale.Storage.Lookup.{at, search_loop, find_index_entry}

-- Entry k is one of the list, and is the first or lies at or before the offset.
abbrev pub IsFloor : List IndexEntry → ℤ → ℕ → Type 0
IsFloor es x k = (k < length es) × ((k ≡ 0) ⊎ ((at es k).offset ≤ℤ x))

abbrev pub Finds : List IndexEntry → ℤ → Option IndexEntry → Type 0
Finds es x r = (k : ℕ) × (r ≡ some (at es k)) × IsFloor es x k

-- The branches of one round of the loop.
module _ {ℓ} (P : Option IndexEntry → Type ℓ) (fuel : ℕ) (es : List IndexEntry) (x : ℤ)
    (lo end : ℕ) where
  abbrev mid : ℕ
  mid = (lo + end - 1) / 2

  search_loop_cases :
      (end ≤ lo → P (some (at es 0)))
      → (lo < end → (at es mid).offset ≡ x → P (some (at es mid)))
      → (lo < end
          → (at es mid).offset <ℤ x
          → mid + 1 < end
          → x <ℤ (at es (mid + 1)).offset
          → P (some (at es mid)))
      → (lo < end
          → (at es mid).offset <ℤ x
          → (end ≡ mid + 1) ⊎ ((at es (mid + 1)).offset ≤ℤ x)
          → P (search_loop fuel es x (mid + 1) end))
      → (lo < end → x <ℤ (at es mid).offset → P (search_loop fuel es x lo mid))
      → P (search_loop (suc fuel) es x lo end)
  unfolding search_loop
  search_loop_cases out hit last right left = elim (Bool-cases (ltb lo end)) [
    | inr f ↦ rw f (out (ground arith))
    | inl t ↦ rw t (elim (Bool-cases (eqb_ℤ (at es mid).offset x)) [
      | inl same ↦ rw same (hit (ground arith) ((eqb_ℤ_iff _ x).0 same))
      | inr miss ↦ rw miss (elim (Bool-cases (ltb_ℤ (at es mid).offset x)) [
        | inr above ↦ rw above (left (ground arith) (ground arith))
        | inl below ↦
            rw below (elim (Bool-cases (ltb (mid + 1) end && ltb_ℤ x (at es (mid + 1)).offset)) [
              | inl stop ↦
                  rw stop (last (ground arith) (ground arith) (ground arith) (ground arith))
              | inr skip ↦ rw skip (right (ground arith) (ground arith) (ground arith))
            ])
      ])
    ])
  ]

≤ℤ_of_eq : {a b : ℤ} → a ≡ b → a ≤ℤ b
≤ℤ_of_eq e = rw e (omega arith)

-- Fuel for the interval from lo to end is enough.
search_loop-Finds :
    (fuel : ℕ) (es : List IndexEntry) (x : ℤ) (lo end : ℕ)
    → lo ≤ end
    → end ≤ length es
    → 0 < length es
    → end < fuel + lo
    → Finds es x (search_loop fuel es x lo end)
search_loop-Finds zero es x lo end o h pos_len m = absurd (omega arith)
search_loop-Finds (suc fuel) es x lo end o h pos_len m =
    search_loop_cases (Finds es x) fuel es x lo end (λ out. (0, refl, (pos_len, inl refl)))
      (λ t same. (_, refl, (omega arith, inr (≤ℤ_of_eq same))))
      (λ t below _ _. (_, refl, (omega arith, inr (omega arith))))
      (λ t below _. search_loop-Finds fuel es x _ end (omega arith) h pos_len (omega arith))
      (λ t above.
        search_loop-Finds fuel es x lo _ (omega arith) (omega arith) pos_len (omega arith))

-- The search of a list that is not empty ends, and finds the first entry or one at or before the
-- offset. The entries need not be sorted.
pub find_index_entry-Finds :
    (e : IndexEntry) (es : List IndexEntry) (x : ℤ) → Finds (e ∷ es) x (find_index_entry (e ∷ es) x)
unfolding find_index_entry
find_index_entry-Finds e es x = elim (Bool-cases (leb_ℤ x e.offset)) [
  | inl low ↦ rw low (0, refl, (omega arith, inl refl))
  | inr high ↦ rw high (elim (Bool-cases (leb_ℤ (at (e ∷ es) (length es)).offset x)) [
    | inl end ↦ rw end (length es, refl, (omega arith, inr (ground arith)))
    | inr inner ↦ rw inner (
        search_loop-Finds (suc (length (e ∷ es))) (e ∷ es) x 0 (length (e ∷ es)) (omega arith)
          (omega arith) (omega arith) (omega arith))
  ])
]

-- The offsets rise along the index.
abbrev pub IsSorted : List IndexEntry → Type 0
IsSorted es = (i j : ℕ) → i < j → j < length es → (at es i).offset <ℤ (at es j).offset

compare_cases : (i k : ℕ) → (i < k) ⊎ ((i ≡ k) ⊎ (k < i))
compare_cases i k = grind arith

<ℤ_irrefl : {a b : ℤ} → a ≡ b → ¬ (a <ℤ b)
<ℤ_irrefl e = rw e (λ h. omega arith)

not_below : (a b : ℤ) → a <ℤ b → ¬ (leb_ℤ b a ≡ true)
not_below a b h e = ground arith

<ℤ_asym : (a b : ℤ) → a <ℤ b → ¬ (b <ℤ a)
<ℤ_asym a b h k = omega arith

module _ (es : List IndexEntry) (sorted : IsSorted es) (k : ℕ) (inside : k < length es) where
  lt_of_offset : (i : ℕ) → i < length es → (at es i).offset <ℤ (at es k).offset → i < k
  lt_of_offset i h lt = elim (compare_cases i k) [
    | inl below ↦ below
    | inr (inl same) ↦ absurd (<ℤ_irrefl (ap (λ n. (at es n).offset) same) lt)
    | inr (inr above) ↦ absurd (<ℤ_asym (at es i).offset (at es k).offset lt (sorted k i above h))
  ]

  gt_of_offset : (i : ℕ) → i < length es → (at es k).offset <ℤ (at es i).offset → k < i
  gt_of_offset i h lt = elim (compare_cases i k) [
    | inl below ↦ absurd (<ℤ_asym (at es k).offset (at es i).offset lt (sorted i k below inside))
    | inr (inl same) ↦ absurd (<ℤ_irrefl (ap (λ n. (at es n).offset) (sym same)) lt)
    | inr (inr above) ↦ above
  ]

  eq_of_offset : (i : ℕ) → i < length es → (at es i).offset ≡ (at es k).offset → i ≡ k
  eq_of_offset i h e = elim (compare_cases i k) [
    | inl below ↦ absurd (<ℤ_irrefl e (sorted i k below inside))
    | inr (inl same) ↦ same
    | inr (inr above) ↦ absurd (<ℤ_irrefl (sym e) (sorted k i above h))
  ]

  search_loop_exact :
      (fuel lo end : ℕ)
      → lo ≤ k
      → k < end
      → end ≤ length es
      → end < fuel + lo
      → search_loop fuel es (at es k).offset lo end ≡ some (at es k)
  search_loop_exact zero lo end a b c m = absurd (omega arith)
  search_loop_exact (suc fuel) lo end a b c m =
      search_loop_cases (λ r. r ≡ some (at es k)) fuel es (at es k).offset lo end
        (λ out. absurd (omega arith))
        (λ t same. ap (λ n. some (at es n)) (eq_of_offset _ (omega arith) same))
        (λ t below next above.
          absurd
            (omega (arith, lt_of_offset _ (omega arith) below, gt_of_offset _ (omega arith) above)))
        (λ t below _.
          search_loop_exact fuel _ end (omega (arith, lt_of_offset _ (omega arith) below)) b c
            (omega arith))
        (λ t above.
          search_loop_exact fuel lo _ a (gt_of_offset _ (omega arith) above) (omega arith)
            (omega arith))

-- On entries with rising offsets, the offset of an entry finds that entry.
pub find_index_entry_exact :
    (e : IndexEntry) (es : List IndexEntry) (k : ℕ)
    → IsSorted (e ∷ es)
    → k < length (e ∷ es)
    → find_index_entry (e ∷ es) (at (e ∷ es) k).offset ≡ some (at (e ∷ es) k)
unfolding find_index_entry
find_index_entry_exact e es k sorted inside = elim (Bool-cases (leb_ℤ x e.offset)) [
  | inl low ↦ rw low (elim (compare_cases 0 k) [
    | inl later ↦ absurd (not_below e.offset x (sorted 0 k later inside) low)
    | inr (inl first) ↦ ap (λ n. some (at (e ∷ es) n)) first
    | inr (inr never) ↦ absurd (omega arith)
  ])
  | inr high ↦ rw high (elim (Bool-cases (leb_ℤ (at (e ∷ es) (length es)).offset x)) [
    | inl end ↦ rw end (elim (compare_cases k (length es)) [
      | inl before ↦ absurd (not_below x _ (sorted k (length es) before (omega arith)) end)
      | inr (inl same) ↦ ap (λ n. some (at (e ∷ es) n)) (sym same)
      | inr (inr never) ↦ absurd (omega arith)
    ])
    | inr inner ↦ rw inner (
        search_loop_exact (e ∷ es) sorted k inside (suc (length (e ∷ es))) 0 (length (e ∷ es))
          (omega arith) inside (omega arith) (omega arith))
  ])
]
  where
    x : ℤ
    x = (at (e ∷ es) k).offset

-- For an offset between the second and the third of five entries with rising offsets the search
-- finds the first entry, not the second.
pub find_index_entry_misses :
    (a b c d e : IndexEntry) (x : ℤ)
    → a.offset <ℤ b.offset
    → b.offset <ℤ x
    → x <ℤ c.offset
    → c.offset <ℤ e.offset
    → find_index_entry (a ∷ b ∷ c ∷ d ∷ e ∷ []) x ≡ some a
unfolding find_index_entry search_loop
find_index_entry_misses a b c d e x ab bx xc ce = ground arith
