-- ===== src/Broker/Memory.antt =====
-- InMemoryStore (pkg/metadata/store.go) as the store of the request handlers.
use kafscale.Base.{true, Result, ok, err}
use kafscale.Base.Bytes.{Bytes}
use kafscale.Base.Maps.{Str}
use kafscale.Metadata.Types.{InMemoryStore, MetadataError}
use kafscale.Metadata.Memory.{metadata, create_topic}
use kafscale.Metadata.Memory.Topics.{
  fetch_topic_config, update_topic_config, create_partitions, delete_topic,
}
use kafscale.Metadata.Memory.Offsets.{next_offset, update_offsets}
use kafscale.Metadata.Memory.Groups.{memory_store}
use kafscale.Broker.Types.{StoreError, known, MetadataStore, Broker}

abbrev pub lift {ℓ} : {A : Type ℓ} → Result MetadataError A → Result StoreError A
lift (ok a) = ok a
lift (err e) = err (known e)

abbrev pub lifted {ℓ} :
    {A : Type ℓ} → InMemoryStore × Result MetadataError A → InMemoryStore × Result StoreError A
lifted (s, r) = (s, lift r)

-- `sha1` and the text of the time, `created`, are what the store gets from Go's library.
unfoldable pub memory_metadata : (Bytes → Bytes) → Str → MetadataStore InMemoryStore
memory_metadata sha1 created = record {
  available = λ s. true;
  groups = memory_store sha1;
  metadata = λ names s. (s, ok (metadata sha1 names s));
  next_offset = λ topic partition s. (s, lift (next_offset topic partition s));
  update_offsets = λ topic partition last s. (update_offsets topic partition last s, ok tt);
  create_topic = λ spec s. lifted (create_topic sha1 created spec s);
  delete_topic = λ name s. lifted (delete_topic name s);
  create_partitions = λ name count s. lifted (create_partitions created name count s);
  fetch_topic_config = λ name s. (s, lift (fetch_topic_config created name s));
  update_topic_config = λ cfg s. lifted (update_topic_config cfg s);
}

abbrev pub with_memory :
    {S : Type 0} → (Bytes → Bytes) → Str → Broker InMemoryStore S → Broker InMemoryStore S
with_memory sha1 created b = record b { api = memory_metadata sha1 created }
