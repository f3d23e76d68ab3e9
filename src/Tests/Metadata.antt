-- ===== src/Tests/Metadata.antt =====
-- Runs of the metadata store of pkg/metadata.
use kafscale.Base.{◌≡◌, refl, false, [], ◌∷◌, none, some, replicate}
use kafscale.Base.Int.{pos}
use kafscale.Base.Bytes.{Bytes}
use kafscale.Base.Text.{text}
use kafscale.Group.Types.{GroupState, empty, ConsumerGroup}
use kafscale.Group.State.{default_rebalance_timeout}
use kafscale.Group.Persist.{build_consumer_group, restore_group_state}
use kafscale.Metadata.Types.{MetadataTopic, TopicSpec, InMemoryStore}
use kafscale.Metadata.Memory.{new_partitions, create_topic, update}
use kafscale.Metadata.Memory.Topics.{create_partitions}
use kafscale.Metadata.Memory.Offsets.{commit_consumer_offset}
use kafscale.Metadata.Memory.Groups.{put_consumer_group, fetch_consumer_group}
use kafscale.Metadata.Memory.WellFormed.{WellFormed}
use kafscale.Metadata.Memory.Steps.{
  topic_created, partitions_created, updated, start, next, Steps-WellFormed,
}
use kafscale.Metadata.Memory.Losses.{restored_timeout_is_default}

-- A hash of 20 bytes
abbrev pub hash : Bytes → Bytes
hash bs = replicate 20 1

abbrev orders : MetadataTopic
orders = record {
  error_code = pos 0;
  name = text "orders";
  topic_id = replicate 16 7;
  is_internal = false;
  partitions = new_partitions (pos 1) 0 2;
  topic_authorized_operations = pos 0;
}

abbrev pub store : InMemoryStore
store = record {
  state = record {
    brokers = record { node_id = pos 1; host = text "broker"; port = pos 9092; rack = none } ∷ [];
    controller_id = pos 1;
    topics = orders ∷ [];
    cluster_name = none;
    cluster_id = none;
  };
  offsets = [];
  consumer_offsets = [];
  consumer_meta = [];
  consumer_groups = [];
  topic_configs = [];
}

store-WellFormed : WellFormed store
unfolding new_partitions
store-WellFormed = record { distinct = (refl, tt); indexed = ((refl, (refl, tt)), tt) }

abbrev spec : TopicSpec
spec = record { name = text "logs"; num_partitions = pos 3; replication_factor = pos 0 }

abbrev with_logs : InMemoryStore
with_logs = (create_topic hash [] spec store).0

abbrev grown : InMemoryStore
grown = (create_partitions [] (text "orders") (pos 5) with_logs).0

grown-WellFormed : WellFormed grown
grown-WellFormed =
    Steps-WellFormed hash
      (next (next (start store) (topic_created [] spec store))
        (partitions_created [] (text "orders") (pos 5) with_logs))
      tt store-WellFormed

Steps-WellFormed_example : WellFormed (update hash grown.state grown)
Steps-WellFormed_example =
    Steps-WellFormed hash
      (next
        (next (next (start store) (topic_created [] spec store))
          (partitions_created [] (text "orders") (pos 5) with_logs))
        (updated grown.state grown))
      ((grown-WellFormed.distinct, grown-WellFormed.indexed), tt) store-WellFormed

abbrev committed : InMemoryStore
committed = commit_consumer_offset (text "a") (text "c") (pos 0) (pos 9) [] store

abbrev group : GroupState
group = record {
  protocol_name = [];
  protocol_type = text "consumer";
  generation_id = pos 3;
  leader_id = [];
  state = empty;
  members = [];
  assignments = [];
  rebalance_timeout = 300000000000;
  rebalance_deadline = 0;
}

restored_timeout_is_default_example :
    (stored : ConsumerGroup) × (fetch_consumer_group
        (text "g")
        (put_consumer_group (build_consumer_group (text "g") group) store).0
      ≡ some stored)
    × ((restore_group_state 1000 stored).rebalance_timeout ≡ default_rebalance_timeout)
restored_timeout_is_default_example = restored_timeout_is_default 1000 103 [] group store
