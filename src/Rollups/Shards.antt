-- ===== src/Rollups/Shards.antt =====
-- The table queue_priority_state_shard and the function adjust_queue_priority_state
-- (migrations/20260727190617_create_queue_priority_state_rollups.sql).
use retsu.Base.{
  ℕ, ◌+◌, ◌-◌, ◌%◌, Bool, ◌&&◌, Option, none, some, List, [], ◌∷◌, leb, ◌==◌, in_range, contains,
  if◌then◌else◌,
}
use mathlib.Core.Option
use retsu.Domain.Message.{Uuid}
use retsu.Postgres.Tables.{MessageState, ready, in_flight, MessageRow}

-- The primary key of the table.
pub record ShardKey : Type 0 where
  pub queue_id : Uuid
  pub priority : ℕ
  pub shard : ℕ

pub record ShardRow : Type 0 where
  pub key : ShardKey
  pub ready_count : ℕ
  pub in_flight_count : ℕ

-- A BIGINT delta as a difference: `up - down`.
pub record Delta : Type 0 where
  pub up : ℕ
  pub down : ℕ

pub record Change : Type 0 where
  pub key : ShardKey
  pub ready_delta : Delta
  pub in_flight_delta : Delta

-- get_byte(uuid_send(message_id), 15) % 32: of the last byte of the identifier.
abbrev pub message_state_shard : Uuid → ℕ
message_state_shard id = id % 256 % 32

abbrev pub key_of : MessageRow → ShardKey
key_of m = record { queue_id = m.queue_id; priority = m.priority; shard = message_state_shard m.id }

abbrev pub same_key : ShardKey → ShardKey → Bool
same_key a b = a.queue_id == b.queue_id && (a.priority == b.priority && a.shard == b.shard)

-- The column that counts a state.
abbrev pub counted_as : MessageState → ShardRow → ℕ
counted_as ready row = row.ready_count
counted_as in_flight row = row.in_flight_count

abbrev pub delta : MessageState → Change → Delta
delta ready change = change.ready_delta
delta in_flight change = change.in_flight_delta

-- `count + delta`, which the checks want not to be negative.
abbrev pub fits : ℕ → Delta → Bool
fits count d = leb d.down (count + d.up)

abbrev pub plus : ℕ → Delta → ℕ
plus count d = count + d.up - d.down

-- SET ready_count = ready_count + ready_delta, in_flight_count = in_flight_count + in_flight_delta
abbrev pub adjusted : Change → ShardRow → ShardRow
adjusted change row = record {
  key = row.key;
  ready_count = plus row.ready_count change.ready_delta;
  in_flight_count = plus row.in_flight_count change.in_flight_delta;
}

abbrev pub missing_row : ShardKey → ShardRow
missing_row key = record { key = key; ready_count = 0; in_flight_count = 0 }

-- The two checks of the counts.
abbrev pub counts_fit : Change → ShardRow → Bool
counts_fit change row =
    fits row.ready_count change.ready_delta && fits row.in_flight_count change.in_flight_delta

-- The foreign key and the ranges of a new row, by the identifiers of the queues.
abbrev pub key_checks : List Uuid → ShardKey → Bool
key_checks known key =
    contains known key.queue_id && (in_range 1 3 key.priority && leb key.shard 31)

-- The row of the key is updated; a missing one is inserted, unless a delta is negative. `none` is a
-- violated check or the exception, which undo the statement on the messages.
unfoldable pub adjust : List Uuid → Change → List ShardRow → Option (List ShardRow)
adjust known change [] =
    if counts_fit change (missing_row change.key) && key_checks known change.key
    then some (adjusted change (missing_row change.key) ∷ [])
    else none
adjust known change (row ∷ rows) =
    let rest = adjust known change rows in
    if same_key change.key row.key
    then (if counts_fit change row then some (adjusted change row ∷ rows) else none)
    else Option.map (◌∷◌ row) rest

-- One PERFORM adjusts by each change.
unfoldable pub adjust_all : List Uuid → List Change → List ShardRow → Option (List ShardRow)
unfolding adjust
adjust_all known [] rows = some rows
adjust_all known (change ∷ changes) rows =
    Option.bind (adjust known change rows) (adjust_all known changes)
