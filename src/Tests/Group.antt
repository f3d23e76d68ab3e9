-- ===== src/Tests/Group.antt =====
-- Runs of the group coordinator over a store in memory.
use kafscale.Base.{◌≡◌, ◌≢◌, refl, true, List, [], ◌∷◌, none, some, arith, inl}
use kafscale.Base.Int.{pos}
use kafscale.Base.Bytes.{All}
use kafscale.Base.Maps.{Str, str_Key, get, has, put, delete}
use kafscale.Group.Types.{
  GroupPhase, completing_rebalance, stable, MemberState, GroupState, ConsumerGroup, Store, no_error,
  rebalance_in_progress,
}
use kafscale.Group.Persist.{build_consumer_group, restore_group_state}
use kafscale.Group.Persist.RoundTrip.{Agrees, restore_group_state-build_consumer_group}
use kafscale.Group.Wire.{parse_subscription_topics, encode_subscription}
use kafscale.Group.Wire.RoundTrip.{parse_subscription_topics-encode_subscription}
use kafscale.Group.Coordinator.{
  Coordinator, SyncAnswer, refuse_sync, load_group, save_group, persist_group, beat, heartbeat,
  leave_group, settle, answer_sync, sync_member, sync_group, cleanup_groups,
}
use kafscale.Group.Coordinator.Invariant.{
  AllLed, heartbeat-AllLed, leave_group-AllLed, sync_group-AllLed, cleanup_groups-AllLed,
}
use kafscale.Group.Coordinator.Answers.{IsCurrent, sync_member_waits}
use kafscale.Group.Coordinator.Join.{JoinRequest, join_group}
use kafscale.Group.Coordinator.Join.Members.{join_group-AllLed}
use kafscale.Group.Coordinator.Offsets.{CommitRequest, group_code, offset_commit}
use kafscale.Group.Coordinator.Admin.{delete_groups}
use kafscale.Group.Coordinator.Admin.Deleted.{IsGone, delete_groups-IsGone}
use kafscale.Group.Coordinator.Offsets.Commit.{all_answers, offset_commit_fenced}

abbrev Groups : Type 0
Groups = List (Str × ConsumerGroup)

abbrev topic : Str
topic = 116 ∷ []

abbrev memory_store : Store Groups
memory_store = record {
  metadata = λ names s. some ((record { name = topic; indexes = pos 0 ∷ pos 1 ∷ [] }) ∷ []);
  fetch_consumer_group = λ id s. some (get id s);
  list_consumer_groups = λ s. some [];
  put_consumer_group = λ g s. (put g.group_id g s, true);
  delete_consumer_group = λ id s. (delete id s, true);
  commit_consumer_offset = λ group topic_name partition offset metadata s. (s, true);
  fetch_consumer_offset = λ group topic_name partition s. none;
}

abbrev first : Str
first = 97 ∷ []

abbrev second : Str
second = 98 ∷ []

abbrev group_id : Str
group_id = 103 ∷ []

abbrev member : MemberState
member = record {
  topics = topic ∷ [];
  session_timeout = 100;
  last_heartbeat = 1000;
  join_generation = pos 3;
}

-- A group of two with the first as the leader
abbrev group : GroupPhase → GroupState
group phase = record {
  protocol_name = [];
  protocol_type = [];
  generation_id = pos 3;
  leader_id = first;
  state = phase;
  members = (first, member) ∷ (second, member) ∷ [];
  assignments = [];
  rebalance_timeout = 50;
  rebalance_deadline = 0;
}

abbrev coordinator : GroupPhase → Coordinator Groups
coordinator phase = record { groups = (group_id, group phase) ∷ []; store = [] }

coordinator-AllLed : (phase : GroupPhase) → AllLed (coordinator phase).groups
unfolding has
coordinator-AllLed phase = (inl refl, tt)

abbrev join : JoinRequest
join = record {
  group_id = group_id;
  member_id = [];
  protocol_type = [];
  protocols = [];
  session_timeout_ms = pos 10;
  rebalance_timeout_ms = pos 10;
}

-- A third member joins.
join_group-AllLed_example :
    AllLed (join_group memory_store 1050 (pos 7) join (coordinator stable)).0.groups
join_group-AllLed_example =
    join_group-AllLed memory_store 1050 (pos 7) join (coordinator stable)
      (coordinator-AllLed stable)

-- The leader sends for its assignment.
sync_group-AllLed_example :
    AllLed
      (sync_group memory_store 1050 group_id first
        (pos 3)
        (coordinator completing_rebalance)).0.groups
sync_group-AllLed_example =
    sync_group-AllLed memory_store 1050 group_id first (pos 3) (coordinator completing_rebalance)
      (coordinator-AllLed completing_rebalance)

heartbeat-AllLed_example :
    AllLed (heartbeat memory_store 1050 group_id second (pos 3) (coordinator stable)).0.groups
heartbeat-AllLed_example =
    heartbeat-AllLed memory_store 1050 group_id second (pos 3) (coordinator stable)
      (coordinator-AllLed stable)

-- The leader leaves.
leave_group-AllLed_example :
    AllLed (leave_group memory_store 1050 group_id first (coordinator stable)).0.groups
leave_group-AllLed_example =
    leave_group-AllLed memory_store 1050 group_id first (coordinator stable)
      (coordinator-AllLed stable)

-- Both members have expired.
cleanup_groups-AllLed_example :
    AllLed (cleanup_groups memory_store 1150 (coordinator stable)).groups
cleanup_groups-AllLed_example =
    cleanup_groups-AllLed memory_store 1150 (coordinator stable) (coordinator-AllLed stable)

accepted : (heartbeat memory_store 1050 group_id second (pos 3) (coordinator stable)).1 ≡ no_error
unfolding heartbeat load_group beat save_group persist_group get put
accepted = refl

abbrev settled : SyncAnswer
settled =
    (answer_sync memory_store 1050 group_id first
      (settle memory_store 1050 [] (group completing_rebalance))
      (coordinator completing_rebalance)).1

synced :
    (sync_group memory_store 1050 group_id first (pos 3) (coordinator completing_rebalance)).1
    ≡ some settled
unfolding sync_group sync_member load_group get has
synced = refl

settled_code : settled.code ≡ no_error
unfolding answer_sync settle save_group persist_group kafscale.Group.State.mark_stable
settled_code = refl

-- The second member sends for its assignment before the leader does.
second_waits :
    sync_member memory_store 1050 group_id second
      (group completing_rebalance)
      (coordinator completing_rebalance)
    ≡ (coordinator completing_rebalance, refuse_sync rebalance_in_progress)
second_waits =
    sync_member_waits memory_store 1050 group_id second (group completing_rebalance)
      (coordinator completing_rebalance) refl refl refl

-- A commit from the generation before
abbrev stale_commit : CommitRequest
stale_commit = record {
  group_id = group_id;
  member_id = first;
  generation_id = pos 2;
  retention_ms = pos 0;
  topics =
      (record {
        name = topic;
        partitions = (record { partition = pos 0; offset = pos 40; metadata = [] }) ∷ [];
      })
      ∷ [];
}

loaded : (load_group memory_store 1050 group_id (coordinator stable)).1 ≡ some (some (group stable))
unfolding load_group get
loaded = refl

stale : ¬ IsCurrent first (pos 2) (group stable)
stale h = ground arith

offset_commit_fenced_example :
    (group_code stale_commit (some (group stable)) ≢ no_error)
    × ((offset_commit memory_store 1050 stale_commit (coordinator stable)).0.store
        ≡ (load_group memory_store 1050 group_id (coordinator stable)).0.store)
    × ((offset_commit memory_store 1050 stale_commit (coordinator stable)).1
        ≡ some (all_answers (group_code stale_commit (some (group stable))) stale_commit.topics))
offset_commit_fenced_example =
    offset_commit_fenced memory_store 1050 stale_commit (coordinator stable) (group stable) loaded
      stale

parse_subscription_topics-encode_subscription_example :
    parse_subscription_topics (some (encode_subscription (topic ∷ first ∷ []))) ≡ topic ∷ first ∷ []
parse_subscription_topics-encode_subscription_example =
    parse_subscription_topics-encode_subscription (topic ∷ first ∷ [])
      (omega arith, (omega arith, tt)) (omega arith)

led_by_first : has first (group completing_rebalance).members ≡ true
unfolding has
led_by_first = refl

restore_group_state-build_consumer_group_example :
    Agrees
      (group completing_rebalance)
      (restore_group_state 1050 (build_consumer_group group_id (group completing_rebalance)))
restore_group_state-build_consumer_group_example =
    restore_group_state-build_consumer_group 1050 group_id (group completing_rebalance) refl
      led_by_first

-- One group that the store does not know, and one without a name
delete_groups-IsGone_example :
    let (c, codes) = delete_groups memory_store (group_id ∷ [] ∷ []) (coordinator stable) in
    All (IsGone c) codes
delete_groups-IsGone_example =
    delete_groups-IsGone memory_store (group_id ∷ [] ∷ []) (coordinator stable)
