-- ===== src/Postgres/Cleanup.antt =====
-- The two maintenance statements: expired messages and retained dead letters
-- (src/modules/queue/infrastructure/postgres.rs).
use retsu.Base.{
  contains, ℕ, ◌+◌, ◌*◌, Bool, ◌&&◌, ◌||◌, not, none, some, List, [], ◌∷◌, map, Text, Result, ok,
  try, ok_or, map_ok, lift, Action, ◌>>=◌, ℤ, pos, to_unsigned, ◌==◌, same, leb, ltb, if◌then◌else◌,
  keep_if, take, length, order_by,
}
use retsu.Domain.Message.{Uuid}
use retsu.Repository.{
  Error, negative_never_delivered, negative_previously_delivered, negative_purged,
  QueueExpirySummary, QueuePurgeSummary,
}
use retsu.Postgres.Tables.{
  second, QueueRow, MessageRow, DeadLetterRow, Database, Session, Statement, execute, find_queue,
  is_in_flight, message_ids, dead_letter_ids,
}

-- JOIN queue ON queue.id = deleted.queue_id: each row with the name of its queue.
abbrev pub join_names {ℓ} : {A : Type ℓ} → (A → Uuid) → List QueueRow → List A → List (Text × A)
join_names queue_of queues [] = []
join_names queue_of queues (x ∷ xs) = elim (find_queue (queue_of x) queues) [
  | none ↦ join_names queue_of queues xs
  | some q ↦ (q.name, x) ∷ join_names queue_of queues xs
]

-- GROUP BY queue.name ORDER BY queue.name
module _ {ℓ} {A : Type ℓ} (name_before : Text → Text → Bool) where
  unfoldable pub add_to_group : Text → A → List (Text × List A) → List (Text × List A)
  add_to_group name x [] = (name, x ∷ []) ∷ []
  add_to_group name x ((other, xs) ∷ groups) =
      if same name other
      then (other, x ∷ xs) ∷ groups
      else if name_before name other
      then (name, x ∷ []) ∷ (other, xs) ∷ groups
      else (other, xs) ∷ add_to_group name x groups

  unfoldable pub group_by_name : List (Text × A) → List (Text × List A)
  group_by_name [] = []
  group_by_name ((name, x) ∷ rows) = add_to_group name x (group_by_name rows)

pub record ProcessExpiredMessagesRow : Type 0 where
  pub queue_name : Text
  pub never_delivered : ℤ
  pub previously_delivered : ℤ

pub record PurgeDeadLetterMessagesRow : Type 0 where
  pub queue_name : Text
  pub purged : ℤ

-- A message past its expiry that no lease in force protects.
abbrev pub is_expired : ℕ → MessageRow → Bool
is_expired now m = leb m.expires_at now && (not (is_in_flight m.state) || leb m.available_after now)

-- ORDER BY expires_at ASC, id ASC
abbrev pub expiry_order : MessageRow → MessageRow → Bool
expiry_order a b = ltb a.expires_at b.expires_at || (a.expires_at == b.expires_at && leb a.id b.id)

-- FOR UPDATE OF message SKIP LOCKED LIMIT $1
unfoldable pub expired_ids : Session → ℕ → List MessageRow → List Uuid
expired_ids s batch_size messages = message_ids (
    take batch_size (
      order_by expiry_order
        (keep_if (λ m. not (s.is_locked m.id)) (keep_if (is_expired s.now) messages))))

abbrev pub expiry_row : Text × List MessageRow → ProcessExpiredMessagesRow
expiry_row (name, rows) = record {
  queue_name = name;
  never_delivered = pos (length (keep_if (λ m. m.delivery_attempts == 0) rows));
  previously_delivered = pos (length (keep_if (λ m. ltb 0 m.delivery_attempts) rows));
}

unfoldable pub delete_expired : Session → ℕ → Statement (List ProcessExpiredMessagesRow)
delete_expired s batch_size db =
    let ids = expired_ids s batch_size db.messages in
    let deleted = keep_if (λ m. contains ids m.id) db.messages in
    let joined = join_names (λ m. m.queue_id) db.queues deleted in
    some (
      map expiry_row (group_by_name s.name_before joined),
      record db { messages = keep_if (λ m. not (contains ids m.id)) db.messages },
    )

abbrev pub read_expiry_row : ProcessExpiredMessagesRow → Result Error QueueExpirySummary
read_expiry_row row =
    try (ok_or (to_unsigned row.never_delivered) negative_never_delivered) λ never.
      try (ok_or (to_unsigned row.previously_delivered) negative_previously_delivered) λ previous.
        ok (record {
          queue_name = row.queue_name;
          never_delivered = never;
          previously_delivered = previous;
        })

-- `.into_iter().map(read).collect::<Result<Vec<_>, _>>()`
abbrev pub collect : {E A B : Type 0} → (A → Result E B) → List A → Result E (List B)
collect read [] = ok []
collect read (x ∷ xs) = try (read x) λ y. map_ok (◌∷◌ y) (collect read xs)

unfoldable pub process_expired_messages :
    Session → ℕ → Action Database Error (List QueueExpirySummary)
process_expired_messages s batch_size = do
  rows ← execute s (delete_expired s batch_size)
  lift (collect read_expiry_row rows)

-- dead_lettered_at <= CURRENT_TIMESTAMP - ($1 * INTERVAL '1 second')
abbrev pub is_retained_long_enough : ℕ → ℕ → DeadLetterRow → Bool
is_retained_long_enough now retention_seconds d =
    leb (d.dead_lettered_at + retention_seconds * second) now

-- ORDER BY dead_lettered_at ASC, id ASC
abbrev pub purge_order : DeadLetterRow → DeadLetterRow → Bool
purge_order a b =
    ltb a.dead_lettered_at b.dead_lettered_at
    || (a.dead_lettered_at == b.dead_lettered_at && leb a.id b.id)

unfoldable pub purgeable_ids : Session → ℕ → ℕ → List DeadLetterRow → List Uuid
purgeable_ids s retention_seconds batch_size letters = dead_letter_ids (
    take batch_size (
      order_by purge_order (
        keep_if (λ d. not (s.is_locked d.id))
          (keep_if (is_retained_long_enough s.now retention_seconds) letters))))

abbrev pub purge_row : Text × List DeadLetterRow → PurgeDeadLetterMessagesRow
purge_row (name, rows) = record { queue_name = name; purged = pos (length rows) }

unfoldable pub delete_dead_letters : Session → ℕ → ℕ → Statement (List PurgeDeadLetterMessagesRow)
delete_dead_letters s retention_seconds batch_size db =
    let ids = purgeable_ids s retention_seconds batch_size db.dead_letters in
    let deleted = keep_if (λ d. contains ids d.id) db.dead_letters in
    let joined = join_names (λ d. d.queue_id) db.queues deleted in
    some (
      map purge_row (group_by_name s.name_before joined),
      record db { dead_letters = keep_if (λ d. not (contains ids d.id)) db.dead_letters },
    )

abbrev pub read_purge_row : PurgeDeadLetterMessagesRow → Result Error QueuePurgeSummary
read_purge_row row =
    try (ok_or (to_unsigned row.purged) negative_purged)
      λ count. ok (record { queue_name = row.queue_name; purged = count })

unfoldable pub purge_dead_letter_messages :
    Session → ℕ → ℕ → Action Database Error (List QueuePurgeSummary)
purge_dead_letter_messages s retention_seconds batch_size = do
  rows ← execute s (delete_dead_letters s retention_seconds batch_size)
  lift (collect read_purge_row rows)
