-- ===== src/Group/Coordinator/Offsets.antt =====
-- OffsetCommit of pkg/broker/coordinator.go.
pub mod Commit
use kafscale.Base.{ℕ, Bool, true, false, not, List, [], ◌∷◌, Option, none, some, if◌then◌else◌}
use kafscale.Base.Int.{ℤ, pos, eqb_ℤ}
use kafscale.Base.Maps.{Str, str_Key, has}
use kafscale.Group.Types.{
  GroupState, Store, ErrorCode, no_error, unknown_server_error, illegal_generation,
  unknown_member_id,
}
use kafscale.Group.Coordinator.{Coordinator, load_group, code_of}

pub record CommitPartition : Type 0 where
  pub partition : ℤ
  pub offset : ℤ
  pub metadata : Str

pub record CommitTopic : Type 0 where
  pub name : Str
  pub partitions : List CommitPartition

pub record CommitRequest : Type 0 where
  pub group_id : Str
  pub member_id : Str
  pub generation_id : ℤ
  pub retention_ms : ℤ
  pub topics : List CommitTopic

-- What the group says of the request.
unfoldable pub group_code : CommitRequest → Option GroupState → ErrorCode
group_code req none = unknown_member_id
group_code req (some g) =
    if not (has req.member_id g.members)
    then unknown_member_id
    else (if eqb_ℤ req.generation_id g.generation_id then no_error else illegal_generation)

module _ {S : Type 0} (api : Store S) where
  unfoldable pub commit_one : ErrorCode → Str → Str → CommitPartition → S → S × ErrorCode
  commit_one code group topic p s =
      let (s', committed) =
        api.commit_consumer_offset group topic p.partition p.offset p.metadata s in
      elim code [ no_error ↦ (s', code_of committed) | other ↦ (s, other) ]

  unfoldable pub commit_partitions :
      ErrorCode → Str → Str → List CommitPartition → S → S × List (ℤ × ErrorCode)
  commit_partitions code group topic [] s = (s, [])
  commit_partitions code group topic (p ∷ ps) s =
      let (s', result) = commit_one code group topic p s in
      let (s'', results) = commit_partitions code group topic ps s' in
      (s'', (p.partition, result) ∷ results)

  unfoldable pub commit_topics :
      ErrorCode → Str → List CommitTopic → S → S × List (Str × List (ℤ × ErrorCode))
  commit_topics code group [] s = (s, [])
  commit_topics code group (t ∷ ts) s =
      let (s', results) = commit_partitions code group t.name t.partitions s in
      let (s'', topics) = commit_topics code group ts s' in (s'', (t.name, results) ∷ topics)

  -- `none` is an error of the store while the group was loaded. The lock is released before the commits;
  -- nothing comes between here.
  unfoldable pub offset_commit :
      ℕ → CommitRequest → Coordinator S → Coordinator S × Option (List (Str × List (ℤ × ErrorCode)))
  offset_commit now req c =
      let (c', found) = load_group api now req.group_id c in
      elim found [
        | none ↦ (c', none)
        | some g ↦
            let (s, topics) = commit_topics (group_code req g) req.group_id req.topics c'.store in
            (record c' { store = s }, some topics)
      ]
