-- ===== src/Domain/Message.antt =====
-- src/modules/queue/domain/message.rs: a message, its priority, and what makes a request valid.
pub mod Validation
pub mod Ranks
use retsu.Base.{
  ℕ, ◌≡◌, Bool, Option, none, some, not, Text, bytes, same, Result, ok, err, try, in_range, ℤ, pos,
  negsuc, ◌==◌, if◌then◌else◌,
}

-- `Uuid::now_v7()` and `Uuid::new_v4()` make them: a 128-bit number.
abbrev pub Uuid : Type 0
Uuid = ℕ

abbrev pub min_message_ttl_seconds : ℕ
min_message_ttl_seconds = 1

abbrev pub max_message_ttl_seconds : ℕ
max_message_ttl_seconds = 2_592_000

pub data MessagePriority : Type 0 where
  high medium low : MessagePriority

pub data MessageValidationError : Type 0 where
  invalid_priority invalid_ttl : MessageValidationError

pub record Message : Type 0 where
  pub id : Uuid
  pub payload : Text
  pub priority : MessagePriority
  pub ttl_seconds : Option ℕ

abbrev pub as_str : MessagePriority → Text
as_str high = bytes "HIGH"
as_str medium = bytes "MEDIUM"
as_str low = bytes "LOW"

abbrev pub rank : MessagePriority → ℕ
rank high = 3
rank medium = 2
rank low = 1

unfoldable pub from_rank : ℤ → Option MessagePriority
from_rank (negsuc n) = none
from_rank (pos n) =
    if n == 3 then some high else if n == 2 then some medium else if n == 1 then some low else none

unfoldable pub parse_priority : Text → Result MessageValidationError MessagePriority
parse_priority value =
    if same value (bytes "HIGH")
    then ok high
    else if same value (bytes "MEDIUM")
    then ok medium
    else if same value (bytes "LOW")
    then ok low
    else err invalid_priority

-- `ttl_seconds.is_some_and(|ttl| !(MIN..=MAX).contains(&ttl))`
abbrev pub is_bad_ttl : Option ℕ → Bool
is_bad_ttl none = Bool.false
is_bad_ttl (some ttl) = not (in_range min_message_ttl_seconds max_message_ttl_seconds ttl)

-- `Message::new`, with the identifier that the generator returns.
unfoldable pub new_message : Uuid → Text → Text → Option ℕ → Result MessageValidationError Message
unfolding parse_priority
new_message id payload priority ttl_seconds = try (parse_priority priority) λ parsed.
    if is_bad_ttl ttl_seconds
    then err invalid_ttl
    else ok (record { id = id; payload = payload; priority = parsed; ttl_seconds = ttl_seconds })
