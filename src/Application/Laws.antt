-- ===== src/Application/Laws.antt =====
-- What a use case guarantees over PostgreSQL, with the calls of other clients in between
-- (src/modules/queue/application).
use retsu.Base.{
  ℕ, ◌+◌, ◌≤◌, ◌≡◌, refl, sym, ap, ◌∙◌, true, false, Option, none, some, [], ◌∷◌, ◌++◌, ok,
  contains, is_some, unwrap_or, find-Memᴰ, All-Memᴰ, arith,
}
use retsu.Domain.Message.{Uuid, high, medium, low, Message, new_message}
use retsu.Domain.Message.Validation.{IsTtl, new_message-eq-ok_iff}
use retsu.Postgres.Tables.{
  QueueRow, Database, Session, no_fault, find_queue, message_ids, message_checks, queue_checks,
}
use retsu.Postgres.Messages.{new_row, enqueue_message}
use retsu.Postgres.Configuration.{queue_details-some}
use retsu.Postgres.Calls.{history}
use retsu.Postgres.Invariant.{IsWellFormed, queue_ids}
use retsu.Postgres.Invariant.Queues.{is_some-find_queue}
use retsu.Postgres.Invariant.Steps.{history_from-IsWellFormed}
use retsu.Postgres.Persistence.{history-HasQueue}
use retsu.Application.World.{World, now_found, call, postgres}
use retsu.Application.EnqueueMessage

-- The row of a message with a valid time to live meets its checks.
new_row-checked :
    (now order : ℕ) (queue_id : Uuid) (message : Message) (ttl : ℕ)
    → 1 ≤ ttl
    → ttl ≤ 2_592_000
    → message_checks (new_row now order queue_id message ttl) ≡ true
unfolding message_checks
new_row-checked now order queue_id message ttl lo hi = elim message.priority [
  | high ↦ ground arith
  | medium ↦ ground arith
  | low ↦ ground arith
]

effective_ttl :
    (ttl : Option ℕ) (default : ℕ)
    → IsTtl ttl
    → 1 ≤ default
    → default ≤ 2_592_000
    → (1 ≤ unwrap_or ttl default) × (unwrap_or ttl default ≤ 2_592_000)
effective_ttl none default valid lo hi = (lo, hi)
effective_ttl (some t) default valid lo hi = ground arith

-- The statement on a queue that exists, under a fresh identifier.
enqueue_message-some :
    (s : Session) (queue_id : Uuid) (message : Message) (ttl : ℕ) (db : Database)
    → s.fault ≡ no_fault
    → contains (queue_ids db.queues) queue_id ≡ true
    → contains (message_ids db.messages) message.id ≡ false
    → 1 ≤ ttl
    → ttl ≤ 2_592_000
    → enqueue_message s queue_id message ttl db ≡ (
      ok tt,
      record db {
        messages = db.messages ++ new_row s.now db.next_order queue_id message ttl ∷ [];
        next_order = db.next_order + 1;
      },
    )
unfolding enqueue_message
enqueue_message-some s queue_id message ttl db clear known fresh lo hi =
    rw
      (
        clear,
        new_row-checked s.now db.next_order queue_id message ttl lo hi,
        is_some-find_queue queue_id db.queues,
        known,
        fresh,
      )
      refl

-- The default time to live of a row that meets its checks.
default_ttl :
    (q : QueueRow)
    → queue_checks q ≡ true
    → (1 ≤ q.default_message_ttl_seconds) × (q.default_message_ttl_seconds ≤ 2_592_000)
unfolding queue_checks
default_ttl q h = (ground arith, ground arith)

-- The database that the second call of a use case finds.
abbrev pub found_second : World → Database → Database
found_second w db = history (w.others (w.served + 1)) db

-- A request to enqueue that passes validation, for a queue that exists when it is looked up, under
-- an identifier that no message has, succeeds whatever other clients do before and between its two
-- calls, on tables that meet their constraints and when nothing fails around its statements: it
-- adds one ready row with the time to live of the request or else the queue's default, and answers
-- the identifier, the queue's name and the priority.
pub enqueue_message-enqueued :
    (w : World) (id : Uuid) (command : EnqueueMessage.EnqueueMessageCommand) (message : Message)
    (q : QueueRow)
    → IsWellFormed w.database
    → new_message id command.payload command.priority command.ttl_seconds ≡ ok message
    → find_queue command.queue_id (now_found w).queues ≡ some q
    → (w.session w.served).fault ≡ no_fault
    → (w.session (w.served + 1)).fault ≡ no_fault
    → contains (message_ids (found_second w (now_found w)).messages) id ≡ false
    → let db = found_second w (now_found w) in
      let row =
        new_row
          (w.session (w.served + 1)).now
          db.next_order
          command.queue_id
          message
          (unwrap_or command.ttl_seconds q.default_message_ttl_seconds) in
      EnqueueMessage.execute postgres id command w ≡ (
        ok (record { id = id; queue_name = q.name; priority = message.priority }),
        record w {
          database = record db {
            messages = db.messages ++ row ∷ [];
            next_order = db.next_order + 1;
          };
          served = w.served + 1 + 1;
        },
      )
unfolding EnqueueMessage.execute postgres call enqueue_message history
enqueue_message-enqueued w id command message q ok_w valid found clear clear' fresh =
    let (named, fits, same_id, same_payload, same_ttl) =
      (new_message-eq-ok_iff id command.payload command.priority command.ttl_seconds message).0
        valid in
    let w1 = history_from-IsWellFormed (w.others w.served) w.database ok_w in
    let listed = (find-Memᴰ _ (now_found w).queues found).0 in
    let checked = All-Memᴰ (λ x. queue_checks x ≡ true) w1.queues.checked listed in
    let (lo, hi) = default_ttl q checked in
    let (lo', hi') = effective_ttl command.ttl_seconds q.default_message_ttl_seconds fits lo hi in
    let known : contains (queue_ids (now_found w).queues) command.queue_id ≡ true =
      sym (is_some-find_queue command.queue_id (now_found w).queues) ∙ ap is_some found in
    let kept = history-HasQueue command.queue_id (w.others (w.served + 1)) (now_found w) known in
    let ran =
      enqueue_message-some (w.session (w.served + 1)) command.queue_id message
        (unwrap_or command.ttl_seconds q.default_message_ttl_seconds) (found_second w (now_found w))
        clear' kept (rw same_id fresh) lo' hi' in
    rw
      (
        valid,
        queue_details-some (w.session w.served) command.queue_id (now_found w) q clear found,
        same_ttl,
        ran,
        same_id,
      )
      refl
