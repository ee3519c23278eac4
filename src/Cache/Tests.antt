-- ===== src/Cache/Tests.antt =====
-- Small caches and a source, on which the theorems about the caches are applied.
mod Rig
mod Local
use retsu.Base.{
  ℕ, List, true, false, none, some, ◌≡◌, refl, inr, ◌∷◌, [], ◌⊎◌, ok, bytes, arith, Option, ◌≤◌,
  is_some, inl, length, same_refl,
}
use retsu.Domain.Queue.{Queue, QueueDetails, QueueConfigurationUpdate}
use retsu.Repository.{sum_of, created}
use retsu.Cache.Shared.{found, details_key, queue_details, update_queue, create_queue, read, insert}
use retsu.Cache.Keys.{details_key-injective}
use retsu.Cache.Memory.{MemoryCachePolicy, new_policy, entry_weight}
use retsu.Cache.Coherence.{
  queue_details-IsAnswer, update_queue-IsCoherent, create_queue-IsCoherent, IsCoherent,
}
use retsu.Cache.Waiting.{queue_details-is_some, queue_details-more}
use retsu.Cache.Origins.{
  queue_details-origin, writes-same, update_queue-found, FromSource, FromCache,
}
use retsu.Cache.Weights.{entries-le-max_entries}
use retsu.Cache.Tests.Rig.{
  Server, held, put, server_cache, encode, runtime, jobs, source, l2, IsAnswer, laws, expires,
}

-- An empty server on which another client loads the queue 7.
abbrev loading : Server
loading = record { values = λ key. none; locked_for = 35 }

empty-IsCoherent : IsCoherent runtime l2 server_cache held IsAnswer loading
empty-IsCoherent key value h = absurd (cc)

-- The server once this client has taken the expired lock and written the details.
abbrev loaded : Server
loaded =
    put (details_key runtime 7) (encode (found jobs))
      (record { values = λ key. none; locked_for = 2_000 })

waiting : queue_details runtime l2 6 7 loading ≡ some (ok (some jobs), loaded)
unfolding queue_details details_key
waiting = refl

queue_details-IsAnswer_example :
    IsAnswer 7 (some jobs) × IsCoherent runtime l2 server_cache held IsAnswer loaded
queue_details-IsAnswer_example =
    queue_details-IsAnswer runtime l2 server_cache held IsAnswer laws refl 6 7 loading
      empty-IsCoherent waiting

abbrev longer : QueueConfigurationUpdate
longer = record {
  visibility_timeout_seconds = some 60;
  max_delivery_attempts = none;
  default_message_ttl_seconds = none;
}

queue_details-is_some_example : is_some (queue_details runtime l2 201 7 loading) ≡ true
queue_details-is_some_example =
    queue_details-is_some runtime l2 server_cache 7 (λ s. s.locked_for) expires 201 loading refl
      (omega arith) (omega arith)

queue_details-origin_example :
    FromSource runtime l2 server_cache 7 (ok (some jobs))
    ⊎ FromCache runtime l2 server_cache 7 (ok (some jobs))
queue_details-origin_example = queue_details-origin runtime l2 server_cache 7 6 loading refl waiting

update_queue-found_example :
    queue_details runtime l2 1 7 (update_queue runtime l2 7 longer loading).1
    ≡ some (
      ok (some jobs),
      (read runtime server_cache 7 (insert runtime server_cache jobs loading).1).1,
    )
update_queue-found_example =
    update_queue-found runtime l2 server_cache refl jobs (encode (found jobs)) refl refl
      (λ key s. ground (arith, same_refl key)) 1 longer loading loading refl
