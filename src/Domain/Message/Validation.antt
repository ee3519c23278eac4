-- ===== src/Domain/Message/Validation.antt =====
-- Which priorities and messages pass validation (src/modules/queue/domain/message.rs).
use retsu.Base.{
  ℕ, ◌≤◌, ◌≡◌, refl, ◌↔◌, Option, none, some, Text, bytes, same, ok, ℤ, pos, negsuc, arith,
  eq_of_same,
}
use retsu.Domain.Message.{
  Uuid, MessagePriority, high, medium, low, Message, as_str, rank, from_rank, parse_priority,
  new_message,
}

parse_priority-as_str : (p : MessagePriority) → parse_priority (as_str p) ≡ ok p
unfolding parse_priority same
parse_priority-as_str high = refl
parse_priority-as_str medium = refl
parse_priority-as_str low = refl

parse_priority_sound : (v : Text) (p : MessagePriority) → parse_priority v ≡ ok p → v ≡ as_str p
unfolding parse_priority
parse_priority_sound v p e =
    ground (
      arith,
      eq_of_same v (bytes "HIGH"),
      eq_of_same v (bytes "MEDIUM"),
      eq_of_same v (bytes "LOW"),
    )

-- `MessagePriority::parse` accepts exactly the three names that `as_str` prints, each as itself.
pub parse_priority-eq-ok_iff :
    (v : Text) (p : MessagePriority) → (parse_priority v ≡ ok p) ↔ (v ≡ as_str p)
parse_priority-eq-ok_iff v p = (parse_priority_sound v p, λ e. rw e (parse_priority-as_str p))

-- `MessagePriority::from_rank` inverts `rank`, and fails on every other number.
pub from_rank-eq-some_iff :
    (r : ℤ) (p : MessagePriority) → (from_rank r ≡ some p) ↔ (r ≡ pos (rank p))
unfolding from_rank
from_rank-eq-some_iff (pos n) high = ground arith
from_rank-eq-some_iff (pos n) medium = ground arith
from_rank-eq-some_iff (pos n) low = ground arith
from_rank-eq-some_iff (negsuc n) p = ground arith

-- A time to live that a request may give: none, or one second to thirty days.
abbrev pub IsTtl : Option ℕ → Type 0
IsTtl none = Unit
IsTtl (some t) = (1 ≤ t) × (t ≤ 2_592_000)

new_message_valid :
    (id : Uuid) (payload : Text) (p : MessagePriority) (ttl : Option ℕ)
    → IsTtl ttl
    → new_message id payload (as_str p) ttl
      ≡ ok (record { id = id; payload = payload; priority = p; ttl_seconds = ttl })
unfolding new_message
new_message_valid id payload p none h = rw (parse_priority-as_str p)
new_message_valid id payload p (some t) h = rw (parse_priority-as_str p) (ground arith)

-- A message that `Message::new` returns: what was asked for, with the parsed priority.
abbrev pub Accepts : Uuid → Text → Text → Option ℕ → Message → Type 0
Accepts id payload priority ttl m =
    (priority ≡ as_str m.priority)
    × IsTtl ttl
    × (m.id ≡ id)
    × (m.payload ≡ payload)
    × (m.ttl_seconds ≡ ttl)

new_message_sound :
    (id : Uuid) (payload priority : Text) (ttl : Option ℕ) (m : Message)
    → new_message id payload priority ttl ≡ ok m
    → Accepts id payload priority ttl m
unfolding new_message
new_message_sound id payload priority none m e =
    ground (arith, parse_priority_sound priority m.priority)
new_message_sound id payload priority (some t) m e =
    ground (arith, parse_priority_sound priority m.priority)

-- `Message::new` succeeds exactly when the priority is one of the three names and the time to
-- live, if given, is 1 to 2592000 seconds; the message then holds what was asked for.
pub new_message-eq-ok_iff :
    (id : Uuid) (payload priority : Text) (ttl : Option ℕ) (m : Message)
    → (new_message id payload priority ttl ≡ ok m) ↔ Accepts id payload priority ttl m
new_message-eq-ok_iff id payload priority ttl m = (
  new_message_sound id payload priority ttl m,
  λ a. cc (a.0, a.2, a.3, a.4, new_message_valid id payload m.priority ttl a.1),
)
