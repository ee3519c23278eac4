-- ===== src/Postgres/Acknowledgement.antt =====
-- What an acknowledgement removes, and which handles it takes
-- (src/modules/queue/infrastructure/postgres.rs).
use retsu.Base.{
  ℕ, ◌<◌, ◌≡◌, refl, sym, ap, subst, ◌∙◌, Bool, true, false, not, Option, none, some, List, [], ◌∷◌,
  Memᴰ, All, All-map, key_unique, find, keep_if, arith, Bool-cases, inl, inr, ◌==◌, ==_iff, ok, ◌↔◌,
}
use retsu.Domain.Message.{Uuid}
use retsu.Repository.{acknowledged, unchanged}
use retsu.Postgres.Tables.{holds, no_fault, MessageRow, Database, Session}
use retsu.Postgres.Messages.{is_leased_as, acknowledge_message}
use retsu.Postgres.Invariant.{IsWellFormed}

-- The receipt names this row, and its lease has not ended.
abbrev pub IsReceipt : ℕ → Uuid → Uuid → Uuid → MessageRow → Type 0
IsReceipt now queue_id message_id handle m =
    (m.id ≡ message_id)
    × (m.queue_id ≡ queue_id)
    × (m.receipt_handle ≡ some handle)
    × (now < m.available_after)

-- The database without the messages of this identifier.
abbrev pub without : Uuid → Database → Database
without id db = record db { messages = keep_if (λ m. not (m.id == id)) db.messages }

holds_iff : (h : Option Uuid) (handle : Uuid) → (holds h handle ≡ true) ↔ (h ≡ some handle)
holds_iff none handle = (λ e. absurd cc, λ e. absurd cc)
holds_iff (some h) handle = (λ e. ground arith, λ e. ground arith)

is_leased_as_iff :
    (now : ℕ) (queue_id message_id handle : Uuid) (m : MessageRow)
    → (is_leased_as now queue_id message_id handle m ≡ true)
      ↔ IsReceipt now queue_id message_id handle m
is_leased_as_iff now queue_id message_id handle m = (
  λ e. (
    ground arith,
    ground arith,
    (holds_iff m.receipt_handle handle).0 (ground arith),
    ground arith,
  ),
  λ (same_id, same_queue, held, early).
      let fits = (holds_iff m.receipt_handle handle).1 held in ground arith,
)

-- Filters that agree on the rows keep the same rows.
module _ {ℓ} {A : Type ℓ} (p q : A → Bool) where
  keep_if-agree : (xs : List A) → All (λ x. p x ≡ q x) xs → keep_if p xs ≡ keep_if q xs
  keep_if-agree [] h = refl
  keep_if-agree (x ∷ xs) h = rw (h.0, keep_if-agree xs h.1)

module _ {ℓ} {A : Type ℓ} (p : A → Bool) where
  find-none : (xs : List A) → All (λ x. p x ≡ false) xs → find p xs ≡ none
  find-none [] h = refl
  find-none (x ∷ xs) h = rw (h.0, find-none xs h.1)

  find-some : (xs : List A) {x : A} → Memᴰ x xs → p x ≡ true → (y : A) × (find p xs ≡ some y)
  find-some [] m e = elim m [ ]
  find-some (x ∷ xs) (Memᴰ.head same) e = (x, rw (← same, e))
  find-some (x ∷ xs) (Memᴰ.tail m) e = elim (Bool-cases (p x)) [
    | inl t ↦ (x, rw t)
    | inr t ↦ rw t (find-some xs m e)
  ]

  keep_if-all : (xs : List A) → All (λ x. p x ≡ true) xs → keep_if p xs ≡ xs
  keep_if-all [] h = refl
  keep_if-all (x ∷ xs) h = rw (h.0, keep_if-all xs h.1)

-- An acknowledgement with the receipt of a lease in force answers that it is acknowledged, and
-- removes that message and no other row, on tables that meet their constraints and when nothing
-- fails around the statement.
pub acknowledge_message-acknowledged :
    (s : Session) (queue_id message_id handle : Uuid) (db : Database) (m : MessageRow)
    → IsWellFormed db
    → s.fault ≡ no_fault
    → Memᴰ m db.messages
    → IsReceipt s.now queue_id message_id handle m
    → acknowledge_message s queue_id message_id handle db ≡ (ok acknowledged, without message_id db)
unfolding acknowledge_message
acknowledge_message-acknowledged s queue_id message_id handle db m w clear listed receipt =
    let test = is_leased_as s.now queue_id message_id handle in
    let leased = (is_leased_as_iff s.now queue_id message_id handle m).1 receipt in
    let (y, found) = find-some test db.messages listed leased in
    let removed : keep_if (λ x. not (test x)) db.messages
        ≡ keep_if (λ x. not (x.id == message_id)) db.messages =
      keep_if-agree _ _ db.messages (
        All-map (λ x. x.id ≡ m.id → x ≡ m) _
          (λ x only. elim (Bool-cases (x.id == message_id)) [
            | inl e ↦
                let same = only ((==_iff _ _).0 e ∙ sym receipt.0) in
                ap not (subst (λ y. test y ≡ true) (sym same) leased ∙ sym e)
            | inr e ↦ ground (arith)
          ])
          db.messages (key_unique (λ x. x.id) db.messages w.messages.ids listed)) in
    rw (clear, found, removed)

-- An acknowledgement that names no lease in force answers that nothing changed, and changes
-- nothing, when nothing fails around the statement.
pub acknowledge_message-unchanged :
    (s : Session) (queue_id message_id handle : Uuid) (db : Database)
    → s.fault ≡ no_fault
    → All (λ m. ¬ IsReceipt s.now queue_id message_id handle m) db.messages
    → acknowledge_message s queue_id message_id handle db ≡ (ok unchanged, db)
unfolding acknowledge_message
acknowledge_message-unchanged s queue_id message_id handle db clear none_leased =
    let test = is_leased_as s.now queue_id message_id handle in
    let refused : All (λ m. test m ≡ false) db.messages =
      All-map (λ m. ¬ IsReceipt s.now queue_id message_id handle m) _
        (λ m no. elim (Bool-cases (test m)) [
          | inl e ↦ absurd (no ((is_leased_as_iff s.now queue_id message_id handle m).0 e))
          | inr e ↦ e
        ])
        db.messages none_leased in
    rw (
      clear,
      find-none test db.messages refused,
      keep_if-all (λ m. not (test m)) db.messages
          (All-map (λ m. test m ≡ false) _ (λ m e. rw e) db.messages refused),
    )
