-- ===== src/Group/Coordinator/Offsets/Commit.antt =====
-- Which offset commits reach the store.
use kafscale.Base.{ℕ, ◌≡◌, ◌≢◌, refl, List, [], ◌∷◌, arith, some}
use kafscale.Base.Int.{ℤ, eqb_ℤ_iff}
use kafscale.Base.Maps.{Str, str_Key}
use kafscale.Group.Types.{GroupState, Store, ErrorCode, no_error}
use kafscale.Group.Coordinator.{Coordinator, load_group}
use kafscale.Group.Coordinator.Answers.{IsCurrent}
use kafscale.Group.Coordinator.Offsets.{
  CommitPartition, CommitTopic, CommitRequest, group_code, commit_one, commit_partitions,
  commit_topics, offset_commit,
}

abbrev pub answers : ErrorCode → List CommitPartition → List (ℤ × ErrorCode)
answers code [] = []
answers code (p ∷ ps) = (p.partition, code) ∷ answers code ps

-- The same code for every partition of the request.
abbrev pub all_answers : ErrorCode → List CommitTopic → List (Str × List (ℤ × ErrorCode))
all_answers code [] = []
all_answers code (t ∷ ts) = (t.name, answers code t.partitions) ∷ all_answers code ts

module _ {S : Type 0} (api : Store S) where
  commit_one_refused :
      (code : ErrorCode) (group topic : Str) (p : CommitPartition) (s : S)
      → code ≢ no_error
      → commit_one api code group topic p s ≡ (s, code)
  unfolding commit_one
  commit_one_refused no_error group topic p s h = absurd (h refl)
  commit_one_refused _ group topic p s h = refl

  commit_partitions_refused :
      (code : ErrorCode) (group topic : Str) (ps : List CommitPartition) (s : S)
      → code ≢ no_error
      → commit_partitions api code group topic ps s ≡ (s, answers code ps)
  unfolding commit_partitions
  commit_partitions_refused code group topic [] s h = refl
  commit_partitions_refused code group topic (p ∷ ps) s h =
      rw (
        commit_one_refused code group topic p s h,
        commit_partitions_refused code group topic ps s h,
      )

  commit_topics_refused :
      (code : ErrorCode) (group : Str) (ts : List CommitTopic) (s : S)
      → code ≢ no_error
      → commit_topics api code group ts s ≡ (s, all_answers code ts)
  unfolding commit_topics
  commit_topics_refused code group [] s h = refl
  commit_topics_refused code group (t ∷ ts) s h = rw (
    commit_partitions_refused code group t.name t.partitions s h,
    commit_topics_refused code group ts s h,
  )

  -- A commit from one who is no current member of the group changes nothing in the store, and every
  -- partition of the request is answered with the group's error.
  pub offset_commit_fenced :
      (now : ℕ) (req : CommitRequest) (c : Coordinator S) (g : GroupState)
      → (load_group api now req.group_id c).1 ≡ some (some g)
      → ¬ IsCurrent req.member_id req.generation_id g
      → (group_code req (some g) ≢ no_error)
        × ((offset_commit api now req c).0.store ≡ (load_group api now req.group_id c).0.store)
        × ((offset_commit api now req c).1
            ≡ some (all_answers (group_code req (some g)) req.topics))
  unfolding offset_commit
  offset_commit_fenced now req c g e stale =
      let refused = fenced in
      let done =
        commit_topics_refused (group_code req (some g)) req.group_id req.topics
          (load_group api now req.group_id c).0.store refused in
      (refused, rw (e, offset_commit, done), rw (e, offset_commit, done))
    where
      fenced : group_code req (some g) ≢ no_error
      fenced = unfold group_code in ground (arith, eqb_ℤ_iff req.generation_id g.generation_id)
