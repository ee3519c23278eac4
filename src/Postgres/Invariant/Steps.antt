-- ===== src/Postgres/Invariant/Steps.antt =====
-- Every call of the repository keeps the invariant, whatever goes wrong around its statement, so it
-- holds of every database that a history of calls reaches
-- (src/modules/queue/infrastructure/postgres.rs).
use retsu.Base.{not, contains, refl, List, [], ◌∷◌}
use retsu.Postgres.Tables.{Database, Session}
use retsu.Postgres.Queues.{reconfigured}
use retsu.Postgres.Messages.{is_leased_as}
use retsu.Postgres.Cleanup.{expired_ids, purgeable_ids}
use retsu.Postgres.Calls.{
  Call, creates, reads_name, reads_details, updates, enqueues, dequeues, acknowledges, expires,
  purges, after, history, no_rows,
}
use retsu.Postgres.Calls.Survival.{Keeps, after-keeps}
use retsu.Postgres.Invariant.{IsWellFormed}
use retsu.Postgres.Invariant.Queues.{insert_queue-IsWellFormed, update_row-IsWellFormed}
use retsu.Postgres.Invariant.Messages.{
  insert_message-IsWellFormed, dequeue_statement-IsWellFormed, fewer_messages-IsWellFormed,
  fewer_letters-IsWellFormed,
}

Keeps-IsWellFormed :
    (s : Session) (c : Call) (db : Database) → IsWellFormed db → Keeps IsWellFormed s c db
unfolding Keeps
Keeps-IsWellFormed s (creates queue) db w =
    λ row r db' e. insert_queue-IsWellFormed row db db' r e w
Keeps-IsWellFormed s (reads_name id) db w = tt
Keeps-IsWellFormed s (reads_details id) db w = tt
Keeps-IsWellFormed s (updates id configuration) db w = λ x y z r db' e.
    update_row-IsWellFormed (reconfigured s.now x y z) id db db' r (λ q. refl) (λ q. refl) e w
Keeps-IsWellFormed s (enqueues id message ttl) db w =
    λ r db' e. insert_message-IsWellFormed _ db db' r refl e w
Keeps-IsWellFormed s (dequeues id handle) db w =
    λ r db' e. dequeue_statement-IsWellFormed s id handle db db' r e w
Keeps-IsWellFormed s (acknowledges id message_id handle) db w =
    fewer_messages-IsWellFormed db w λ m. not (is_leased_as s.now id message_id handle m)
Keeps-IsWellFormed s (expires batch_size) db w =
    fewer_messages-IsWellFormed db w λ m. not (contains (expired_ids s batch_size db.messages) m.id)
Keeps-IsWellFormed s (purges retention batch_size) db w =
    fewer_letters-IsWellFormed db w
      λ d. not (contains (purgeable_ids s retention batch_size db.dead_letters) d.id)

-- Every call keeps the tables within their constraints: identifiers and names stay unique, foreign
-- keys hold, and each row meets the checks on its columns.
pub after-IsWellFormed :
    (s : Session) (c : Call) (db : Database) → IsWellFormed db → IsWellFormed (after s c db)
after-IsWellFormed s c db w = after-keeps IsWellFormed s c db w (Keeps-IsWellFormed s c db w)

no_rows-IsWellFormed : IsWellFormed no_rows
unfolding no_rows
no_rows-IsWellFormed = record {
  queues = record { checked = tt; ids = tt; names_differ = tt };
  messages = record { rows = tt; ids = tt; order = tt };
  dead_letters = record { rows = tt; ids = tt };
}

pub history_from-IsWellFormed :
    (cs : List (Session × Call)) (db : Database) → IsWellFormed db → IsWellFormed (history cs db)
unfolding history
history_from-IsWellFormed [] db w = w
history_from-IsWellFormed ((s, c) ∷ cs) db w =
    history_from-IsWellFormed cs (after s c db) (after-IsWellFormed s c db w)

-- After any history of calls on an empty database, each at its own time, with its own locks and
-- failures, identifiers and names are unique, foreign keys hold, and each row meets the checks on
-- its columns.
pub history-IsWellFormed : (cs : List (Session × Call)) → IsWellFormed (history cs no_rows)
history-IsWellFormed cs = history_from-IsWellFormed cs no_rows no_rows-IsWellFormed
