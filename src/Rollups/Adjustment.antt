-- ===== src/Rollups/Adjustment.antt =====
-- What adjust_queue_priority_state makes of the counts, and that it succeeds where the counts cover
-- what a change takes away (migrations/20260727190617_create_queue_priority_state_rollups.sql).
use mathlib.Core.Option
use retsu.Base.{
  ℕ, ◌+◌, ◌≤◌, ◌≡◌, ◌∙◌, ap, sym, refl, arith, Bool, true, false, some, List, [], ◌∷◌,
  if◌then◌else◌, Bool-cases, inl, inr, All, All-map, All-both,
}
use retsu.Domain.Message.{Uuid}
use retsu.Postgres.Tables.{MessageState, ready, in_flight}
use retsu.Rollups.Shards.{
  ShardKey, ShardRow, Change, same_key, counted_as, delta, adjusted, missing_row, counts_fit,
  key_checks, adjust, adjust_all,
}
use retsu.Rollups.Tallies.{up_of, down_of, moved, IsApart, Apart, same_key-≡, same_key_sym}

-- The count that the row of a key holds, 0 if there is none.
abbrev pub stored : MessageState → ShardKey → List ShardRow → ℕ
stored col key [] = 0
stored col key (row ∷ rows) =
    if same_key key row.key then counted_as col row else stored col key rows

-- The sum of a column over the rows whose keys pass a test.
abbrev pub total : MessageState → (ShardKey → Bool) → List ShardRow → ℕ
total col among [] = 0
total col among (row ∷ rows) =
    (if among row.key then counted_as col row else 0) + total col among rows

-- The rows changed by exactly these changes, in each row and in each sum.
pub record Balances (cs : List Change) (rows rows' : List ShardRow) : Type 0 where
  pub each :
      (col : MessageState) (key : ShardKey)
      → stored col key rows' + moved down_of col (same_key key) cs
        ≡ stored col key rows + moved up_of col (same_key key) cs
  pub sums :
      (col : MessageState) (among : ShardKey → Bool)
      → total col among rows' + moved down_of col among cs
        ≡ total col among rows + moved up_of col among cs

-- The change takes no more than the counts have.
abbrev pub IsCovered : List ShardRow → Change → Type 0
IsCovered rows c = (col : MessageState) → (delta col c).down ≤ stored col c.key rows

abbrev pub IsKnown : List Uuid → ShardKey → Type 0
IsKnown known key = key_checks known key ≡ true

adjusted-count :
    (col : MessageState) (c : Change) (row : ShardRow)
    → (delta col c).down ≤ counted_as col row
    → counted_as col (adjusted c row) + (delta col c).down ≡ counted_as col row + (delta col c).up
adjusted-count ready c row h = omega arith
adjusted-count in_flight c row h = omega arith

counts_fit-row :
    (c : Change) (row : ShardRow)
    → ((col : MessageState) → (delta col c).down ≤ counted_as col row)
    → counts_fit c row ≡ true
counts_fit-row c row h = let r = h ready in let i = h in_flight in ground arith

weigh :
    (p q : Bool) (a b u d t : ℕ)
    → p ≡ q
    → a + d ≡ b + u
    → (if p then a else 0) + t + ((if q then d else 0) + 0)
      ≡ (if p then b else 0) + t + ((if q then u else 0) + 0)
weigh p true a b u d t same e = rw same (omega (arith, e))
weigh p false a b u d t same e = rw same refl

choose :
    (p q : Bool) (a b u d t : ℕ)
    → p ≡ q
    → a + d ≡ b + u
    → (if p then a else t) + ((if q then d else 0) + 0)
      ≡ (if p then b else t) + ((if q then u else 0) + 0)
choose p true a b u d t same e = rw same (omega (arith, e))
choose p false a b u d t same e = rw same refl

missing-stored : (col : MessageState) (k key : ShardKey) → stored col key (missing_row k ∷ []) ≡ 0
missing-stored ready k key = ground arith
missing-stored in_flight k key = ground arith

missing-total :
    (col : MessageState) (k : ShardKey) (among : ShardKey → Bool)
    → total col among (missing_row k ∷ []) ≡ 0
missing-total ready k among = ground arith
missing-total in_flight k among = ground arith

module _ (c : Change) where
  adjust-row :
      (row : ShardRow) (rows : List ShardRow)
      → row.key ≡ c.key
      → ((col : MessageState) → (delta col c).down ≤ counted_as col row)
      → Balances (c ∷ []) (row ∷ rows) (adjusted c row ∷ rows)
  adjust-row row rows same h = record {
    each = λ col key.
        choose (same_key key row.key) (same_key key c.key) _ _ _ _ (stored col key rows)
          (ap (same_key key) same) (adjusted-count col c row (h col));
    sums = λ col among.
        weigh (among row.key) (among c.key) _ _ _ _ (total col among rows) (ap among same)
          (adjusted-count col c row (h col));
  }

  missing-covers :
      IsCovered [] c
      → (col : MessageState) → (delta col c).down ≤ counted_as col (missing_row c.key)
  missing-covers h ready = h ready
  missing-covers h in_flight = h in_flight

  missing-Balances : IsCovered [] c → Balances (c ∷ []) [] (adjusted c (missing_row c.key) ∷ [])
  missing-Balances h =
      let b = adjust-row (missing_row c.key) [] refl (missing-covers h) in
      record {
        each = λ col key.
            b.each col key
            ∙ ap (λ n. n + moved up_of col (same_key key) (c ∷ [])) (missing-stored col c.key key);
        sums = λ col among.
            b.sums col among
            ∙ ap (λ n. n + moved up_of col among (c ∷ [])) (missing-total col c.key among);
      }

  other-Balances :
      (row : ShardRow) (rows rows' : List ShardRow)
      → same_key c.key row.key ≡ false
      → Balances (c ∷ []) rows rows'
      → Balances (c ∷ []) (row ∷ rows) (row ∷ rows')
  other-Balances row rows rows' apart b = record {
    each = λ col key. elim (Bool-cases (same_key key row.key)) [
      | inl e ↦
          let far : same_key key c.key ≡ false =
            ap (λ k. same_key k c.key) (same_key-≡ key row.key e)
            ∙ same_key_sym row.key c.key
            ∙ apart in
          rw (e, far) refl
      | inr e ↦ rw e (b.each col key)
    ];
    sums = λ col among. omega (arith, b.sums col among);
  }

  adjust-Balances :
      (known : List Uuid)
      → IsKnown known c.key
      → (rows : List ShardRow) → IsCovered rows c
      → (rows' : List ShardRow) × (adjust known c rows ≡ some rows') × Balances (c ∷ []) rows rows'
  unfolding adjust
  adjust-Balances known good [] h = (
    adjusted c (missing_row c.key) ∷ [],
    rw (counts_fit-row c (missing_row c.key) (missing-covers h), good) refl,
    missing-Balances h,
  )
  adjust-Balances known good (row ∷ rows) h = elim (Bool-cases (same_key c.key row.key)) [
    | inl e ↦
        let covered : (col : MessageState) → (delta col c).down ≤ counted_as col row =
          λ col. rw e at h col in
        (
          adjusted c row ∷ rows,
          rw (e, counts_fit-row c row covered) refl,
          adjust-row row rows (sym (same_key-≡ c.key row.key e)) covered,
        )
    | inr e ↦
        let covered : IsCovered rows c = λ col. rw e at h col in
        let (rows', ran, b) = adjust-Balances known good rows covered in
        (row ∷ rows', rw (e, ran) refl, other-Balances row rows rows' e b)
  ]

-- Changes of different keys that the counts cover all succeed.
pub adjust_all-Balances :
    (known : List Uuid) (cs : List Change)
    → Apart cs
    → All (λ c. IsKnown known c.key) cs
    → (rows : List ShardRow) → All (IsCovered rows) cs
    → (rows' : List ShardRow) × (adjust_all known cs rows ≡ some rows') × Balances cs rows rows'
unfolding adjust_all Option.bind
adjust_all-Balances known [] a good rows h =
    (rows, refl, record { each = λ col key. refl; sums = λ col among. refl })
adjust_all-Balances known (c ∷ cs) a good rows h =
    let (rows1, ran1, b1) = adjust-Balances c known good.0 rows h.0 in
    let h1 : All (IsCovered rows1) cs =
      All-map (λ x. IsApart c.key x × IsCovered rows x) (IsCovered rows1)
        (λ x (apart, covered) col.
          let far = same_key_sym x.key c.key ∙ apart in
          let kept = rw far at (b1.each col x.key) in omega (arith, covered col, kept))
        cs (All-both _ _ cs a.0 h.1) in
    let (rows', ran, b) = adjust_all-Balances known cs a.1 good.1 rows1 h1 in
    (
      rows',
      rw ran1 ran,
      record {
        each = λ col key. omega (arith, b1.each col key, b.each col key);
        sums = λ col among. omega (arith, b1.sums col among, b.sums col among);
      },
    )
