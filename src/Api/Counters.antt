-- ===== src/Api/Counters.antt =====
-- The counters agree with the summaries, and a request that fails moves none.
use retsu.Base.{
  ℕ, ◌+◌, ◌≡◌, refl, sym, ap, ◌∙◌, List, [], ◌∷◌, ◌++◌, bytes, Option, Result, ok, err, panicked,
  map_err, Action, ◌>>=◌, and_then, failing_as, lift, arith,
}
use retsu.Domain.Message.{Uuid, as_str}
use retsu.Repository.{
  QueueRepository, QueueExpirySummary, QueuePurgeSummary, sum_of, processed, purged,
}
use retsu.Application.CreateQueue
use retsu.Application.UpdateQueue
use retsu.Application.EnqueueMessage.{EnqueueMessageError, EnqueuedMessage}
use retsu.Application.EnqueueMessage
use retsu.Application.DequeueMessage.{DequeueMessageError, DequeueMessageResult}
use retsu.Application.DequeueMessage
use retsu.Application.AcknowledgeMessage.{AcknowledgeMessageError, AcknowledgedMessage}
use retsu.Application.AcknowledgeMessage
use retsu.Application.Maintenance
use retsu.Api.Module.{
  Counter, Addition, Log, Counted, addition, expired_additions, purged_additions, counted,
  uncounted, message_enqueued, acknowledgement, process_expired_messages,
  purge_dead_letter_messages,
}
use retsu.Api.Module
use retsu.Api.Handlers
use retsu.Api.Handlers.{HttpResponse}
use retsu.Api.Requests.{
  MessagePath, AcknowledgeMessageRequest, CreateQueueRequest, UpdateQueueRequest,
  EnqueueMessageRequest, create_command, update_command, enqueue_command, acknowledge_command,
  queue_response, enqueue_response,
}

-- What the additions come to.
abbrev pub total : Log → ℕ
total = sum_of λ a. a.count

total-append : (xs ys : Log) → total (xs ++ ys) ≡ total xs + total ys
total-append [] ys = omega arith
total-append (x ∷ xs) ys = omega (arith, total-append xs ys)

total-addition : (counter : Counter) (count : ℕ) → total (addition counter count) ≡ count
total-addition counter count = ground arith

total-expired_additions :
    (queues : List QueueExpirySummary) → total (expired_additions queues) ≡ processed queues
total-expired_additions [] = refl
total-expired_additions (q ∷ qs) =
    let never = Module.messages_expired q.queue_name (bytes "never_delivered") in
    let before = Module.messages_expired q.queue_name (bytes "previously_delivered") in
    let rest = expired_additions qs in
    let first = addition never q.never_delivered in
    let second = addition before q.previously_delivered in
    let outer = total-append first (second ++ rest) in
    let inner = total-append second rest in
    let one = total-addition never q.never_delivered in
    let two = total-addition before q.previously_delivered in
    let all = total-expired_additions qs in omega arith

total-purged_additions :
    (queues : List QueuePurgeSummary) → total (purged_additions queues) ≡ purged queues
total-purged_additions [] = refl
total-purged_additions (q ∷ qs) = ground (
  arith,
  total-append (addition (Module.messages_purged q.queue_name) q.purged) (purged_additions qs),
  total-purged_additions qs,
  total-addition (Module.messages_purged q.queue_name) q.purged,
)

of_ok : {E A : Type 0} {a b : A} (r : Result E A) → r ≡ ok a → r ≡ ok b → a ≡ b
of_ok r h k = cc

module _ {S E A B : Type 0} (added : A → Log) (value : A → B) where
  -- The end of a call that moves counters, by the result of its use case.
  counted-eq-ok :
      (r : Result E A) (s : S) (log : Log) {b : B} {t : Counted S}
      → and_then (r, (s, log)) (λ a. counted (added a) (value a)) ≡ (ok b, t)
      → (a : A) × (value a ≡ b) × (t.1 ≡ log ++ added a)
  counted-eq-ok (ok a) s log h =
      (a, of_ok (ok (value a)) refl (ap (λ r. r.0) h), sym (ap (λ r. r.1.1) h))
  counted-eq-ok (err e) s log h = absurd (cc)
  counted-eq-ok panicked s log h = absurd (cc)

  counted-eq-err :
      (r : Result E A) (s : S) (log : Log) (e : E) (t : Counted S)
      → and_then (r, (s, log)) (λ a. counted (added a) (value a)) ≡ (err e, t)
      → t.1 ≡ log
  counted-eq-err (ok x) s log e t h = absurd (cc)
  counted-eq-err (err e') s log e t h = sym (ap (λ r. r.1.1) h)
  counted-eq-err panicked s log e t h = absurd (cc)

-- A call that fails leaves the counters.
abbrev pub KeepsCounters : {S E A : Type 0} → Action (Counted S) E A → Type 0
KeepsCounters {S} {E} call =
    (s : S) (log : Log) (e : E) (t : Counted S) → call (s, log) ≡ (err e, t) → t.1 ≡ log

uncounted-KeepsCounters :
    {S E A : Type 0} (action : Action S E A) → KeepsCounters (uncounted action)
uncounted-KeepsCounters action s log e t h = sym (ap (λ r. r.1.1) h)

module _ {S E F A B : Type 0} (call : Action (Counted S) E A) (f : E → F) (g : A → B)
    (keeps : KeepsCounters call) where
  mapped :
      (log : Log) (r : Result E A × Counted S) {e : F} {t : Counted S}
      → ((e' : E) → r ≡ (err e', r.1) → r.1.1 ≡ log)
      → and_then (map_err f r.0, r.1) (λ a. lift (ok (g a))) ≡ (err e, t)
      → t.1 ≡ log
  mapped log (ok a, s) h eq = absurd (cc)
  mapped log (err e', s) h eq = sym (ap (λ r. r.1.1) eq) ∙ h e' refl
  mapped log (panicked, s) h eq = absurd (cc)

  handler-KeepsCounters : KeepsCounters (failing_as f call >>= λ a. lift (ok (g a)))
  handler-KeepsCounters s log e t h =
      mapped log (call (s, log)) (λ e' eq. keeps s log e' (call (s, log)).1 eq) h

module _ {S : Type 0} where
  enqueued :
      (r : Result EnqueueMessageError EnqueuedMessage × S) (log : Log) (e : EnqueueMessageError)
      (t : Counted S)
      → and_then
          (r.0, (r.1, log))
          (λ m. counted (message_enqueued m.queue_name (as_str m.priority)) m)
        ≡ (err e, t)
      → t.1 ≡ log
  enqueued r log =
      counted-eq-err (λ m. message_enqueued m.queue_name (as_str m.priority)) (λ m. m) r.0 r.1 log

  dequeued :
      (r : Result DequeueMessageError DequeueMessageResult × S) (log : Log)
      (e : DequeueMessageError) (t : Counted S)
      → and_then
          (r.0, (r.1, log))
          (λ m.
            counted
              (addition (Module.messages_dead_lettered m.queue_name) m.dead_lettered)
              m.message)
        ≡ (err e, t)
      → t.1 ≡ log
  dequeued r log =
      counted-eq-err (λ m. addition (Module.messages_dead_lettered m.queue_name) m.dead_lettered)
        (λ m. m.message) r.0 r.1 log

  acknowledged :
      (r : Result AcknowledgeMessageError (Option AcknowledgedMessage) × S) (log : Log)
      (e : AcknowledgeMessageError) (t : Counted S)
      → and_then (r.0, (r.1, log)) (λ m. counted (acknowledgement m) tt) ≡ (err e, t)
      → t.1 ≡ log
  acknowledged r log = counted-eq-err acknowledgement (λ _. tt) r.0 r.1 log

module _ {S : Type 0} (repository : QueueRepository S) where
  -- A request to any of the five routes that is answered with an error adds nothing to the
  -- counters.
  pub handlers-KeepsCounters :
      (id queue_id : Uuid) (path : MessagePath) (create : CreateQueueRequest)
      (update : UpdateQueueRequest) (enqueue : EnqueueMessageRequest)
      (acknowledge : AcknowledgeMessageRequest)
      → KeepsCounters (Handlers.create_queue repository id create)
        × KeepsCounters (Handlers.update_queue repository queue_id update)
        × KeepsCounters (Handlers.enqueue_message repository id queue_id enqueue)
        × KeepsCounters (Handlers.dequeue_message repository id queue_id)
        × KeepsCounters (Handlers.acknowledge_message repository path acknowledge)
  unfolding Handlers.create_queue Handlers.update_queue Handlers.enqueue_message
      Handlers.dequeue_message Handlers.acknowledge_message Module.create_queue Module.update_queue
      Module.enqueue_message Module.dequeue_message Module.acknowledge_message
  handlers-KeepsCounters id queue_id path create update enqueue acknowledge = (
    handler-KeepsCounters (Module.create_queue repository id (create_command create))
        Handlers.map_create_queue_error (λ q. Handlers.created_queue (queue_response q))
        (uncounted-KeepsCounters (CreateQueue.execute repository id (create_command create))),
    handler-KeepsCounters (Module.update_queue repository (update_command queue_id update))
        Handlers.map_update_queue_error (λ q. Handlers.updated_queue (queue_response q))
        (uncounted-KeepsCounters (UpdateQueue.execute repository (update_command queue_id update))),
    handler-KeepsCounters (Module.enqueue_message repository id (enqueue_command queue_id enqueue))
        Handlers.map_enqueue_message_error (λ m. Handlers.created_message (enqueue_response m))
        (λ s log.
          enqueued (EnqueueMessage.execute repository id (enqueue_command queue_id enqueue) s) log),
    handler-KeepsCounters (Module.dequeue_message repository id queue_id)
        Handlers.map_dequeue_message_error Handlers.delivery_response
        (λ s log. dequeued (DequeueMessage.execute repository id queue_id s) log),
    handler-KeepsCounters
        (Module.acknowledge_message repository (acknowledge_command path acknowledge))
        Handlers.map_acknowledge_message_error (λ _. Handlers.no_content)
        (λ s log.
          acknowledged
            (AcknowledgeMessage.execute repository (acknowledge_command path acknowledge) s) log),
  )

  -- When the cleanup of expired messages succeeds, the counters grow by exactly as many messages
  -- as its summary counts.
  pub process_expired_messages-total :
      (batch_size : ℕ) (s : S) (log : Log) {summary : List QueueExpirySummary} {t : Counted S}
      → process_expired_messages repository batch_size (s, log) ≡ (ok summary, t)
      → (added : Log) × (t.1 ≡ log ++ added) × (total added ≡ processed summary)
  unfolding process_expired_messages
  process_expired_messages-total batch_size s log h =
      let (r, s') = Maintenance.process_expired_messages repository batch_size s in
      let (a, same, logged) = counted-eq-ok expired_additions (λ summary. summary) r s' log h in
      (expired_additions a, logged, total-expired_additions a ∙ ap processed same)

  pub purge_dead_letter_messages-total :
      (retention batch_size : ℕ) (s : S) (log : Log) {summary : List QueuePurgeSummary}
      {t : Counted S}
      → purge_dead_letter_messages repository retention batch_size (s, log) ≡ (ok summary, t)
      → (added : Log) × (t.1 ≡ log ++ added) × (total added ≡ purged summary)
  unfolding purge_dead_letter_messages
  purge_dead_letter_messages-total retention batch_size s log h =
      let (r, s') = Maintenance.purge_dead_letter_messages repository retention batch_size s in
      let (a, same, logged) = counted-eq-ok purged_additions (λ summary. summary) r s' log h in
      (purged_additions a, logged, total-purged_additions a ∙ ap purged same)
