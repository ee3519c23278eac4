-- ===== src/Cache/Local.antt =====
-- src/modules/queue/infrastructure/l1.rs: `L1QueueRepository`, the names of queues in the memory of
-- the process, over any repository.
use retsu.Base.{Option, none, some, Text, ok, Action, ◌>>=◌, failing_as}
use retsu.Domain.Message.{Uuid}
use retsu.Domain.Queue.{Queue, QueueDetails, QueueConfigurationUpdate}
use retsu.Repository.{
  Error, cached_load_failed, CreateQueueOutcome, created, already_exists, QueueRepository,
}
use retsu.Cache.Memory.{MokaCache, get_or_load}

pub record L1QueueRepository (S : Type 0) : Type 0 where
  pub source : QueueRepository S
  pub queue_names : Option (MokaCache S Uuid Text Error)

module _ {S : Type 0} where
  -- `MemoryCache::insert` never fails.
  abbrev pub insert_name : Option (MokaCache S Uuid Text Error) → Uuid → Text → S → S
  insert_name none id name s = s
  insert_name (some queue_names) id name s = queue_names.insert id name s

  abbrev pub insert_created :
      Option (MokaCache S Uuid Text Error) → CreateQueueOutcome → Queue → S → S
  insert_created queue_names created queue s = insert_name queue_names queue.id queue.name s
  insert_created queue_names already_exists queue s = s

  abbrev pub insert_updated : Option (MokaCache S Uuid Text Error) → Option QueueDetails → S → S
  insert_updated queue_names none s = s
  insert_updated queue_names (some details) s = insert_name queue_names details.id details.name s

  unfoldable pub create_queue : L1QueueRepository S → Queue → Action S Error CreateQueueOutcome
  create_queue l1 queue = l1.source.create_queue queue >>= λ outcome s.
      (ok outcome, insert_created l1.queue_names outcome queue s)

  abbrev pub name_through :
      QueueRepository S → Uuid → Option (MokaCache S Uuid Text Error) → Action S Error (Option Text)
  name_through source id none = source.queue_name id
  name_through source id (some queue_names) =
      failing_as cached_load_failed (get_or_load queue_names id (source.queue_name id))

  unfoldable pub queue_name : L1QueueRepository S → Uuid → Action S Error (Option Text)
  unfolding get_or_load
  queue_name l1 id = name_through l1.source id l1.queue_names

  unfoldable pub update_queue :
      L1QueueRepository S → Uuid → QueueConfigurationUpdate → Action S Error (Option QueueDetails)
  update_queue l1 id configuration = l1.source.update_queue id configuration >>= λ details s.
      (ok details, insert_updated l1.queue_names details s)

  -- `L1QueueRepository` as a repository: what it does not cache goes to the source.
  unfoldable pub l1_repository : L1QueueRepository S → QueueRepository S
  unfolding create_queue queue_name update_queue
  l1_repository l1 = record {
    create_queue = create_queue l1;
    queue_name = queue_name l1;
    queue_details = l1.source.queue_details;
    update_queue = update_queue l1;
    enqueue_message = l1.source.enqueue_message;
    dequeue_message = l1.source.dequeue_message;
    acknowledge_message = l1.source.acknowledge_message;
    process_expired_messages = l1.source.process_expired_messages;
    purge_dead_letter_messages = l1.source.purge_dead_letter_messages;
  }
