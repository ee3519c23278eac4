-- ===== src/Rollups/Trigger.antt =====
-- The function maintain_queue_priority_state and the three triggers that run it
-- (migrations/20260727190617_create_queue_priority_state_rollups.sql). The order of the changes,
-- which only orders locks, is left out.
use retsu.Base.{
  ◌+◌, Bool, true, false, ◌&&◌, ◌||◌, not, Option, some, List, [], ◌∷◌, ◌==◌, contains, keep_if,
  if◌then◌else◌,
}
use mathlib.Core.Option
use retsu.Domain.Message.{Uuid}
use retsu.Postgres.Tables.{MessageState, ready, in_flight, MessageRow, message_ids}
use retsu.Rollups.Shards.{ShardKey, ShardRow, Delta, Change, key_of, same_key, adjust_all}

-- A statement on queue_message with the transition tables of its trigger.
pub data Dml : Type 0 where
  inserted : (new_messages : List MessageRow) → Dml
  deleted : (old_messages : List MessageRow) → Dml
  updated : (old_messages new_messages : List MessageRow) → Dml

-- One message more or less in the column of its state.
abbrev pub one_up : MessageState → Change → Change
one_up ready c = record c { ready_delta = record c.ready_delta { up = c.ready_delta.up + 1 } }
one_up in_flight c = record c {
  in_flight_delta = record c.in_flight_delta { up = c.in_flight_delta.up + 1 };
}

abbrev pub one_down : MessageState → Change → Change
one_down ready c = record c { ready_delta = record c.ready_delta { down = c.ready_delta.down + 1 } }
one_down in_flight c = record c {
  in_flight_delta = record c.in_flight_delta { down = c.in_flight_delta.down + 1 };
}

abbrev pub no_change : ShardKey → Change
no_change key = record {
  key = key;
  ready_delta = record { up = 0; down = 0 };
  in_flight_delta = record { up = 0; down = 0 };
}

-- GROUP BY queue_id, priority, shard: a row joins the group of its key.
unfoldable pub join_group : (Change → Change) → ShardKey → List Change → List Change
join_group step key [] = step (no_change key) ∷ []
join_group step key (c ∷ cs) =
    let rest = join_group step key cs in if same_key key c.key then step c ∷ cs else c ∷ rest

-- COUNT(*) FILTER of the new rows less that of the old rows, by group.
unfoldable pub tally : (old_messages new_messages : List MessageRow) → List Change
unfolding join_group
tally [] [] = []
tally [] (n ∷ ns) = join_group (one_up n.state) (key_of n) (tally [] ns)
tally (o ∷ os) ns = join_group (one_down o.state) (key_of o) (tally os ns)

-- HAVING SUM(ready_delta) <> 0 OR SUM(in_flight_delta) <> 0
abbrev pub is_zero : Delta → Bool
is_zero d = d.up == d.down

abbrev pub has_effect : Change → Bool
has_effect c = not (is_zero c.ready_delta) || not (is_zero c.in_flight_delta)

abbrev pub any : {A : Type 0} → (A → Bool) → List A → Bool
any p [] = false
any p (x ∷ xs) = p x || any p xs

abbrev pub same_state : MessageState → MessageState → Bool
same_state ready ready = true
same_state in_flight in_flight = true
same_state _ _ = false

-- The row of the join that has both, with the same queue, priority and state.
abbrev pub is_unmoved : MessageRow → MessageRow → Bool
is_unmoved o n =
    n.id == o.id
    && (n.queue_id == o.queue_id && (n.priority == o.priority && same_state n.state o.state))

-- EXISTS (… FULL JOIN … ON new_message.id = old_message.id WHERE …)
abbrev pub any_moved : List MessageRow → List MessageRow → Bool
any_moved old new =
    any (λ o. not (any (is_unmoved o) new)) old
    || any (λ n. not (contains (message_ids old) n.id)) new

unfoldable pub changes : Dml → List Change
unfolding tally
changes (inserted new) = tally [] new
changes (deleted old) = tally old []
changes (updated old new) = if any_moved old new then keep_if has_effect (tally old new) else []

unfoldable pub fire : List Uuid → List Dml → List ShardRow → Option (List ShardRow)
unfolding changes adjust_all
fire known [] rows = some rows
fire known (d ∷ ds) rows = Option.bind (adjust_all known (changes d) rows) (fire known ds)
