-- ===== src/Rollups/Backfill.antt =====
-- The backfill of the counts for the messages that the migration finds
-- (migrations/20260727190617_create_queue_priority_state_rollups.sql).
use retsu.Base.{
  Bool, ◌≡◌, ◌∙◌, ap, refl, arith, Bool-cases, inl, inr, List, [], ◌∷◌, map, All, All-map,
  if◌then◌else◌,
}
use retsu.Postgres.Tables.{MessageState, ready, in_flight, MessageRow}
use retsu.Rollups.Shards.{ShardKey, ShardRow, Change, same_key, counted_as, delta}
use retsu.Rollups.Trigger.{tally}
use retsu.Rollups.Tallies.{up_of, moved, IsApart, Apart, same_key-≡, moved-tally, tally-Apart}
use retsu.Rollups.Adjustment.{stored, total}
use retsu.Rollups.Firing.{Agrees}

-- A group of messages as a row: COUNT(*) FILTER by state.
abbrev pub counted_row : Change → ShardRow
counted_row c = record {
  key = c.key;
  ready_count = c.ready_delta.up;
  in_flight_count = c.in_flight_delta.up;
}

-- INSERT INTO queue_priority_state_shard … SELECT … GROUP BY
unfoldable pub backfill : List MessageRow → List ShardRow
backfill ms = map counted_row (tally [] ms)

counted_row-counted_as :
    (col : MessageState) (c : Change) → counted_as col (counted_row c) ≡ up_of (delta col c)
counted_row-counted_as ready c = refl
counted_row-counted_as in_flight c = refl

moved-Apart :
    (col : MessageState) (key : ShardKey) (cs : List Change)
    → All (IsApart key) cs
    → moved up_of col (same_key key) cs ≡ 0
moved-Apart col key [] a = refl
moved-Apart col key (c ∷ cs) a = rw (a.0, moved-Apart col key cs a.1) (omega arith)

stored-rows :
    (col : MessageState) (key : ShardKey) (cs : List Change)
    → Apart cs
    → stored col key (map counted_row cs) ≡ moved up_of col (same_key key) cs
stored-rows col key [] a = refl
stored-rows col key (c ∷ cs) a = elim (Bool-cases (same_key key c.key)) [
  | inl e ↦
      let far : All (IsApart key) cs =
        All-map (IsApart c.key) (IsApart key)
          (λ x h. ap (λ k. same_key k x.key) (same_key-≡ key c.key e) ∙ h) cs a.0 in
      rw e (omega (arith, counted_row-counted_as col c, moved-Apart col key cs far))
  | inr e ↦ rw e (omega (arith, stored-rows col key cs a.1))
]

total-rows :
    (col : MessageState) (among : ShardKey → Bool) (cs : List Change)
    → total col among (map counted_row cs) ≡ moved up_of col among cs
total-rows col among [] = refl
total-rows col among (c ∷ cs) =
    let rest = total-rows col among cs in
    let one = ap (λ n. if among c.key then n else 0) (counted_row-counted_as col c) in
    omega (arith, one, rest)

pub backfill-Agrees : (ms : List MessageRow) → Agrees (backfill ms) ms
unfolding backfill
backfill-Agrees ms = record {
  each = λ col key.
      stored-rows col key (tally [] ms) (tally-Apart [] ms)
      ∙ (moved-tally col (same_key key) [] ms).0;
  sums = λ col among. total-rows col among (tally [] ms) ∙ (moved-tally col among [] ms).0;
}
