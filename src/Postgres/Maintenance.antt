-- ===== src/Postgres/Maintenance.antt =====
-- What the two maintenance statements remove and report
-- (src/modules/queue/infrastructure/postgres.rs).
use retsu.Base.{
  ℕ, ◌+◌, ◌*◌, ◌≤◌, ◌≡◌, refl, ◌∙◌, Bool, true, not, ◌||◌, Option-cases, inl, inr, ◌⊎◌, List, [],
  ◌∷◌, ◌++◌, map, Text, Perm, All, All-map, All-keep_if, keep_if, keep_if-perm, contains, length,
  picked-All, length-picked_limit, ok, arith, leb, ltb, ◌==◌,
}
use retsu.Domain.Message.{Uuid}
use retsu.Repository.{QueueExpirySummary, QueuePurgeSummary, sum_of, processed, purged}
use retsu.Postgres.Tables.{
  second, is_in_flight, MessageState, ready, in_flight, QueueRow, MessageRow, DeadLetterRow,
  Database, Session, no_fault, find_queue,
}
use retsu.Postgres.Cleanup.{
  join_names, add_to_group, group_by_name, is_expired, expiry_order, expired_ids, expiry_row,
  delete_expired, read_expiry_row, collect, process_expired_messages, is_retained_long_enough,
  purge_order, purgeable_ids, purge_row, delete_dead_letters, read_purge_row,
  purge_dead_letter_messages,
}
use retsu.Postgres.Invariant.{queue_ids, MessageOk, DeadLetterOk, IsWellFormed}
use retsu.Postgres.Invariant.Queues.{is_some-find_queue}

-- A message past its expiry that no lease in force protects.
abbrev pub IsExpired : ℕ → MessageRow → Type 0
IsExpired now m = (m.expires_at ≤ now) × ((m.state ≡ ready) ⊎ (m.available_after ≤ now))

-- A dead letter as old as the retention.
abbrev pub IsRetained : ℕ → ℕ → DeadLetterRow → Type 0
IsRetained now retention_seconds d = d.dead_lettered_at + retention_seconds * second ≤ now

free :
    (state : MessageState) (until now : ℕ)
    → not (is_in_flight state) || leb until now ≡ true
    → (state ≡ ready) ⊎ (until ≤ now)
free ready until now h = inl refl
free in_flight until now h = inr (ground arith)

-- A group's rows are counted once, whichever group a row joins.
module _ {A : Type 0} (name_before : Text → Text → Bool) where
  abbrev size : Text × List A → ℕ
  size (name, rows) = length rows

  add_to_group-size :
      (name : Text) (x : A) (groups : List (Text × List A))
      → sum_of size (add_to_group name_before name x groups) ≡ sum_of size groups + 1
  unfolding add_to_group
  add_to_group-size name x [] = refl
  add_to_group-size name x ((other, xs) ∷ groups) = ground (arith, add_to_group-size name x groups)

  group_by_name-size :
      (rows : List (Text × A)) → sum_of size (group_by_name name_before rows) ≡ length rows
  unfolding group_by_name
  group_by_name-size [] = refl
  group_by_name-size ((name, x) ∷ rows) =
      ground
        (arith, add_to_group-size name x (group_by_name name_before rows), group_by_name-size rows)

module _ {A : Type 0} (queue_of : A → Uuid) (queues : List QueueRow) where
  -- With the foreign keys met, the join drops no row.
  join_names-length :
      (xs : List A)
      → All (λ x. contains (queue_ids queues) (queue_of x) ≡ true) xs
      → length (join_names queue_of queues xs) ≡ length xs
  join_names-length [] known = refl
  join_names-length (x ∷ xs) known = elim (Option-cases (find_queue (queue_of x) queues)) [
    | inl missing ↦ absurd (ground (arith, is_some-find_queue (queue_of x) queues, known.0))
    | inr (q, found) ↦ rw (length, found) (ground (arith, join_names-length xs known.1))
  ]

-- The summary of a queue's group of expired messages.
abbrev expiry_summary : Text × List MessageRow → QueueExpirySummary
expiry_summary (name, rows) = record {
  queue_name = name;
  never_delivered = length (keep_if (λ m. m.delivery_attempts == 0) rows);
  previously_delivered = length (keep_if (λ m. ltb 0 m.delivery_attempts) rows);
}

abbrev purge_summary : Text × List DeadLetterRow → QueuePurgeSummary
purge_summary (name, rows) = record { queue_name = name; purged = length rows }

-- Reading the rows of a reply never fails.
read-expiry :
    (groups : List (Text × List MessageRow))
    → collect read_expiry_row (map expiry_row groups) ≡ ok (map expiry_summary groups)
read-expiry [] = refl
read-expiry (g ∷ groups) = rw (read-expiry groups) refl

read-purge :
    (groups : List (Text × List DeadLetterRow))
    → collect read_purge_row (map purge_row groups) ≡ ok (map purge_summary groups)
read-purge [] = refl
read-purge (g ∷ groups) = rw (read-purge groups) refl

-- Each expired message was delivered before or it was not.
attempts-length :
    (rows : List MessageRow)
    → length (keep_if (λ m. m.delivery_attempts == 0) rows)
        + length (keep_if (λ m. ltb 0 m.delivery_attempts) rows)
      ≡ length rows
attempts-length [] = refl
attempts-length (m ∷ rows) = ground (arith, attempts-length rows)

processed-size :
    (groups : List (Text × List MessageRow))
    → processed (map expiry_summary groups) ≡ sum_of (λ g. length g.1) groups
processed-size [] = refl
processed-size ((name, rows) ∷ groups) = ground (arith, attempts-length rows, processed-size groups)

purged-size :
    (groups : List (Text × List DeadLetterRow))
    → purged (map purge_summary groups) ≡ sum_of (λ g. length g.1) groups
purged-size [] = refl
purged-size ((name, rows) ∷ groups) = ground (arith, purged-size groups)

-- A call succeeded and left `left` of the rows; what is gone meets the condition, and is as many as
-- were counted, within the batch.
pub record Removes {A : Type 0} (Condition : A → Type 0) (rows left : List A)
    (counted batch_size : ℕ) : Type 0 where
  pub gone : List A
  pub split : Perm (gone ++ left) rows
  pub condition : All Condition gone
  pub count : counted ≡ length gone
  pub bounded : length gone ≤ batch_size

-- On tables that meet their constraints and without a failure around the statement, the cleanup
-- answers; it removes at most a batch of messages, each past its expiry and not protected by a lease
-- in force, changes nothing else, and the summaries count exactly the messages removed.
pub process_expired_messages-Removes :
    (s : Session) (batch_size : ℕ) (db : Database)
    → IsWellFormed db
    → s.fault ≡ no_fault
    → (summaries : List QueueExpirySummary) × (left : List MessageRow) × (process_expired_messages s
          batch_size db
        ≡ (ok summaries, record db { messages = left }))
      × Removes (IsExpired s.now) db.messages left (processed summaries) batch_size
unfolding process_expired_messages delete_expired expired_ids
process_expired_messages-Removes s batch_size db w clear =
    let gone = keep_if (λ m. contains (expired_ids s batch_size db.messages) m.id) db.messages in
    let joined = join_names (λ (m : MessageRow). m.queue_id) db.queues gone in
    let groups = group_by_name s.name_before joined in
    let known =
      All-keep_if (λ m. contains (queue_ids db.queues) m.queue_id ≡ true) _ db.messages
        (All-map (MessageOk (queue_ids db.queues) db.next_order) _ (λ m h. h.1) db.messages
          w.messages.rows) in
    (
      map expiry_summary groups,
      keep_if (λ m. not (contains (expired_ids s batch_size db.messages) m.id)) db.messages,
      rw (clear, read-expiry groups),
      record {
        gone = gone;
        split = keep_if-perm _ db.messages;
        condition =
            All-map (λ m. is_expired s.now m ≡ true) _
              (λ m h. (ground arith, free m.state m.available_after s.now (ground arith))) gone
              (picked-All (λ m. m.id) (is_expired s.now) expiry_order (λ m. s.is_locked m.id)
                batch_size db.messages w.messages.ids);
        count =
            processed-size groups
            ∙ (group_by_name-size s.name_before joined ∙ join_names-length _ db.queues gone known);
        bounded =
            length-picked_limit (λ m. m.id) (is_expired s.now) expiry_order (λ m. s.is_locked m.id)
              batch_size db.messages w.messages.ids;
      },
    )

-- On tables that meet their constraints and without a failure around the statement, the purge
-- answers; it removes at most a batch of dead letters, each as old as the retention, changes nothing
-- else, and the summaries count exactly the dead letters removed.
pub purge_dead_letter_messages-Removes :
    (s : Session) (retention_seconds batch_size : ℕ) (db : Database)
    → IsWellFormed db
    → s.fault ≡ no_fault
    → (summaries : List QueuePurgeSummary) × (left : List DeadLetterRow)
      × (purge_dead_letter_messages s retention_seconds batch_size db
          ≡ (ok summaries, record db { dead_letters = left }))
      × Removes
          (IsRetained s.now retention_seconds)
          db.dead_letters
          left
          (purged summaries)
          batch_size
unfolding purge_dead_letter_messages delete_dead_letters purgeable_ids
purge_dead_letter_messages-Removes s retention_seconds batch_size db w clear =
    let ids = purgeable_ids s retention_seconds batch_size db.dead_letters in
    let gone = keep_if (λ d. contains ids d.id) db.dead_letters in
    let joined = join_names (λ (d : DeadLetterRow). d.queue_id) db.queues gone in
    let groups = group_by_name s.name_before joined in
    let test = is_retained_long_enough s.now retention_seconds in
    let known =
      All-keep_if (λ d. contains (queue_ids db.queues) d.queue_id ≡ true) _ db.dead_letters
        (All-map (DeadLetterOk (queue_ids db.queues)) _ (λ d h. h.1) db.dead_letters
          w.dead_letters.rows) in
    (
      map purge_summary groups,
      keep_if (λ d. not (contains ids d.id)) db.dead_letters,
      rw (clear, read-purge groups),
      record {
        gone = gone;
        split = keep_if-perm _ db.dead_letters;
        condition =
            All-map (λ d. test d ≡ true) _ (λ d h. ground arith) gone
              (picked-All (λ d. d.id) test purge_order (λ d. s.is_locked d.id) batch_size
                db.dead_letters w.dead_letters.ids);
        count =
            purged-size groups
            ∙ (group_by_name-size s.name_before joined ∙ join_names-length _ db.queues gone known);
        bounded =
            length-picked_limit (λ d. d.id) test purge_order (λ d. s.is_locked d.id) batch_size
              db.dead_letters w.dead_letters.ids;
      },
    )
