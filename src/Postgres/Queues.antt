-- ===== src/Postgres/Queues.antt =====
-- The statements on the table `queue` and the Rust code around them
-- (src/modules/queue/infrastructure/postgres.rs).
use retsu.Base.{
  ℕ, not, Option, none, some, List, [], ◌∷◌, ◌++◌, map, Text, Result, ok, try, lift, ◌>>=◌, map_ok,
  ok_or, expect, transpose_map, Action, ℤ, pos, negsuc, to_unsigned, to_signed, i16_max, i32_max,
  ◌==◌, same, if◌then◌else◌, find,
}
use mathlib.Core.Option
use retsu.Domain.Message.{Uuid}
use retsu.Domain.Queue.{Queue, QueueDetails, QueueConfigurationUpdate}
use retsu.Repository.{
  Error, negative_visibility_timeout, negative_delivery_attempt_limit, negative_default_message_ttl,
  CreateQueueOutcome, created, already_exists,
}
use retsu.Postgres.Tables.{
  QueueRow, Database, Session, Statement, execute, find_queue, queue_checks,
}

-- What sqlx reads from a row: the columns as signed integers.
pub record QueueDetailsRow : Type 0 where
  pub id : Uuid
  pub name : Text
  pub visibility_timeout_seconds : ℤ
  pub max_delivery_attempts : ℤ
  pub default_message_ttl_seconds : ℤ

-- The columns of SELECT and RETURNING.
abbrev pub details_row : QueueRow → QueueDetailsRow
details_row q = record {
  id = q.id;
  name = q.name;
  visibility_timeout_seconds = pos q.visibility_timeout_seconds;
  max_delivery_attempts = pos q.max_delivery_attempts;
  default_message_ttl_seconds = pos q.default_message_ttl_seconds;
}

unfoldable pub queue_details_from_row : QueueDetailsRow → Result Error QueueDetails
queue_details_from_row row =
    try (ok_or (to_unsigned row.visibility_timeout_seconds) negative_visibility_timeout)
      λ visibility.
        try (ok_or (to_unsigned row.max_delivery_attempts) negative_delivery_attempt_limit)
          λ attempts.
            try (ok_or (to_unsigned row.default_message_ttl_seconds) negative_default_message_ttl)
              λ ttl. ok (record {
                id = row.id;
                name = row.name;
                visibility_timeout_seconds = visibility;
                max_delivery_attempts = attempts;
                default_message_ttl_seconds = ttl;
              })

-- The value of a bound INTEGER or SMALLINT parameter, which the code made by `try_from`.
abbrev pub bound : ℤ → ℕ
bound (pos n) = n
bound (negsuc n) = 0

-- INSERT INTO queue … ON CONFLICT (name) DO NOTHING RETURNING id
abbrev pub insert_queue : QueueRow → Statement (Option Uuid)
insert_queue row db =
    if not (queue_checks row) then none else elim (find (λ q. same q.name row.name) db.queues) [
      | some q ↦ some (none, db)
      | none ↦ elim (find_queue row.id db.queues) [
        | some q ↦ none
        | none ↦ some (some row.id, record db { queues = db.queues ++ row ∷ [] })
      ]
    ]

abbrev pub creation_outcome : Option Uuid → CreateQueueOutcome
creation_outcome (some id) = created
creation_outcome none = already_exists

-- The statement of `create_queue` with its bound parameters.
abbrev pub insert_bound : Session → Queue → ℤ → ℤ → ℤ → Action Database Error CreateQueueOutcome
insert_bound s queue visibility attempts ttl = do
  inserted ← execute s (
      insert_queue (record {
        id = queue.id;
        name = queue.name;
        visibility_timeout_seconds = bound visibility;
        max_delivery_attempts = bound attempts;
        default_message_ttl_seconds = bound ttl;
        created_at = s.now;
        updated_at = s.now;
      }))
  lift (ok (creation_outcome inserted))

unfoldable pub create_queue : Session → Queue → Action Database Error CreateQueueOutcome
create_queue s queue = do
  visibility ← lift (expect (to_signed i32_max queue.settings.visibility_timeout_seconds))
  attempts ← lift (expect (to_signed i16_max queue.settings.max_delivery_attempts))
  ttl ← lift (expect (to_signed i32_max queue.settings.default_message_ttl_seconds))
  insert_bound s queue visibility attempts ttl

-- SELECT name FROM queue WHERE id = $1
abbrev pub select_name : Uuid → Statement (Option Text)
select_name queue_id db = some (Option.map (λ q. q.name) (find_queue queue_id db.queues), db)

-- SELECT … FROM queue WHERE id = $1
abbrev pub select_details : Uuid → Statement (Option QueueDetailsRow)
select_details queue_id db = some (Option.map details_row (find_queue queue_id db.queues), db)

unfoldable pub queue_name : Session → Uuid → Action Database Error (Option Text)
queue_name s queue_id = execute s (select_name queue_id)

unfoldable pub queue_details : Session → Uuid → Action Database Error (Option QueueDetails)
queue_details s queue_id = do
  row ← execute s (select_details queue_id)
  lift (transpose_map queue_details_from_row row)

-- `option.map(|value| i32::try_from(value).expect(…))`
abbrev pub expect_given : ℕ → Option ℕ → Result Error (Option ℤ)
expect_given most none = ok none
expect_given most (some value) = map_ok some (expect (to_signed most value))

-- COALESCE($n, column)
abbrev pub coalesce : Option ℤ → ℕ → ℕ
coalesce none column = column
coalesce (some value) column = bound value

abbrev pub reconfigured : ℕ → Option ℤ → Option ℤ → Option ℤ → QueueRow → QueueRow
reconfigured now visibility attempts ttl q = record q {
  visibility_timeout_seconds = coalesce visibility q.visibility_timeout_seconds;
  max_delivery_attempts = coalesce attempts q.max_delivery_attempts;
  default_message_ttl_seconds = coalesce ttl q.default_message_ttl_seconds;
  updated_at = now;
}

abbrev pub replace_queue : QueueRow → List QueueRow → List QueueRow
replace_queue row = map λ q. if q.id == row.id then row else q

-- UPDATE queue SET … WHERE id = $1 RETURNING …
abbrev pub update_row : (QueueRow → QueueRow) → Uuid → Statement (Option QueueDetailsRow)
update_row change queue_id db = elim (find_queue queue_id db.queues) [
  | none ↦ some (none, db)
  | some q ↦
      if not (queue_checks (change q))
      then none
      else some
          (some (details_row (change q)), record db { queues = replace_queue (change q) db.queues })
]

-- The statement of `update_queue` with its bound parameters, and its reply.
abbrev pub update_bound :
    Session → Uuid → Option ℤ → Option ℤ → Option ℤ → Action Database Error (Option QueueDetails)
update_bound s queue_id visibility attempts ttl = do
  row ← execute s (update_row (reconfigured s.now visibility attempts ttl) queue_id)
  lift (transpose_map queue_details_from_row row)

unfoldable pub update_queue :
    Session → Uuid → QueueConfigurationUpdate → Action Database Error (Option QueueDetails)
update_queue s queue_id configuration = do
  visibility ← lift (expect_given i32_max configuration.visibility_timeout_seconds)
  attempts ← lift (expect_given i16_max configuration.max_delivery_attempts)
  ttl ← lift (expect_given i32_max configuration.default_message_ttl_seconds)
  update_bound s queue_id visibility attempts ttl
