-- ===== src/Domain/Queue.antt =====
-- src/modules/queue/domain/queue.rs: a queue, its name and its settings, and an update of them.
pub mod Names
pub mod Settings
use retsu.Base.{
  ℕ, Bool, true, false, ◌&&◌, ◌||◌, not, Option, none, some, List, [], ◌∷◌, Text, Result, ok, err,
  try, map_err, in_range, all, length, ◌==◌, if◌then◌else◌, unwrap_or,
}
use retsu.Domain.Message.{Uuid}

abbrev pub min_queue_name_length : ℕ
min_queue_name_length = 1

abbrev pub max_queue_name_length : ℕ
max_queue_name_length = 64

abbrev pub default_visibility_timeout_seconds : ℕ
default_visibility_timeout_seconds = 30

abbrev pub max_visibility_timeout_seconds : ℕ
max_visibility_timeout_seconds = 21_600

abbrev pub default_max_delivery_attempts : ℕ
default_max_delivery_attempts = 5

abbrev pub max_max_delivery_attempts : ℕ
max_max_delivery_attempts = 100

abbrev pub default_message_ttl_seconds : ℕ
default_message_ttl_seconds = 604_800

abbrev pub max_message_ttl_seconds : ℕ
max_message_ttl_seconds = 2_592_000

pub data QueueNameError : Type 0 where
  invalid_length invalid_format : QueueNameError

pub data QueueSettingsError : Type 0 where
  invalid_visibility_timeout invalid_max_delivery_attempts invalid_default_message_ttl :
      QueueSettingsError

pub data QueueValidationError : Type 0 where
  invalid_name : QueueNameError → QueueValidationError
  invalid_settings : QueueSettingsError → QueueValidationError

pub record QueueSettings : Type 0 where
  pub visibility_timeout_seconds : ℕ
  pub max_delivery_attempts : ℕ
  pub default_message_ttl_seconds : ℕ

pub record Queue : Type 0 where
  pub id : Uuid
  pub name : Text
  pub settings : QueueSettings

pub record QueueDetails : Type 0 where
  pub id : Uuid
  pub name : Text
  pub visibility_timeout_seconds : ℕ
  pub max_delivery_attempts : ℕ
  pub default_message_ttl_seconds : ℕ

pub record QueueConfigurationUpdate : Type 0 where
  pub visibility_timeout_seconds : Option ℕ
  pub max_delivery_attempts : Option ℕ
  pub default_message_ttl_seconds : Option ℕ

-- `is_ascii_lowercase() || is_ascii_digit()`
abbrev pub is_queue_name_endpoint : ℕ → Bool
is_queue_name_endpoint byte = in_range b'a' b'z' byte || in_range b'0' b'9' byte

abbrev pub is_queue_name_character : ℕ → Bool
is_queue_name_character byte =
    is_queue_name_endpoint byte || (byte == b'.' || (byte == b'_' || byte == b'-'))

-- `bytes.first().copied().is_some_and(…)`
abbrev pub has_valid_start : Text → Bool
has_valid_start [] = false
has_valid_start (b ∷ bs) = is_queue_name_endpoint b

-- `bytes.last().copied().is_some_and(…)`
pub has_valid_end : Text → Bool
has_valid_end [] = false
has_valid_end (b ∷ []) = is_queue_name_endpoint b
has_valid_end (b ∷ c ∷ bs) = has_valid_end (c ∷ bs)

unfoldable pub parse_name : Text → Result QueueNameError Text
unfolding has_valid_end
parse_name value =
    if not (in_range min_queue_name_length max_queue_name_length (length value))
    then err invalid_length
    else if not (has_valid_start value)
        || (not (has_valid_end value) || not (all is_queue_name_character value))
    then err invalid_format
    else ok value

abbrev pub validate_visibility_timeout : ℕ → Result QueueSettingsError (Unit {0})
validate_visibility_timeout value =
    if not (in_range 1 max_visibility_timeout_seconds value)
    then err invalid_visibility_timeout
    else ok tt

abbrev pub validate_max_delivery_attempts : ℕ → Result QueueSettingsError (Unit {0})
validate_max_delivery_attempts value =
    if not (in_range 1 max_max_delivery_attempts value)
    then err invalid_max_delivery_attempts
    else ok tt

abbrev pub validate_default_message_ttl : ℕ → Result QueueSettingsError (Unit {0})
validate_default_message_ttl value =
    if not (in_range 1 max_message_ttl_seconds value)
    then err invalid_default_message_ttl
    else ok tt

unfoldable pub new_settings :
    Option ℕ → Option ℕ → Option ℕ → Result QueueSettingsError QueueSettings
new_settings visibility attempts ttl =
    let visibility' = unwrap_or visibility default_visibility_timeout_seconds in
    let attempts' = unwrap_or attempts default_max_delivery_attempts in
    let ttl' = unwrap_or ttl default_message_ttl_seconds in
    try (validate_visibility_timeout visibility') λ _.
      try (validate_max_delivery_attempts attempts') λ _.
        try (validate_default_message_ttl ttl') λ _. ok (record {
          visibility_timeout_seconds = visibility';
          max_delivery_attempts = attempts';
          default_message_ttl_seconds = ttl';
        })

-- `Queue::new`, with the identifier that the generator returns.
unfoldable pub new_queue :
    Uuid → Text → Option ℕ → Option ℕ → Option ℕ → Result QueueValidationError Queue
new_queue id name visibility attempts ttl = try (map_err invalid_name (parse_name name)) λ name'.
    try (map_err invalid_settings (new_settings visibility attempts ttl))
      λ settings'. ok (record { id = id; name = name'; settings = settings' })

-- `Queue::details`
abbrev pub details : Queue → QueueDetails
details q = record {
  id = q.id;
  name = q.name;
  visibility_timeout_seconds = q.settings.visibility_timeout_seconds;
  max_delivery_attempts = q.settings.max_delivery_attempts;
  default_message_ttl_seconds = q.settings.default_message_ttl_seconds;
}

-- `if let Some(value) = option { validate(value)?; }`
abbrev pub validate_given :
    (ℕ → Result QueueSettingsError (Unit {0})) → Option ℕ → Result QueueSettingsError (Unit {0})
validate_given validate none = ok tt
validate_given validate (some value) = validate value

-- `QueueConfigurationUpdate::new`
unfoldable pub new_update :
    Option ℕ → Option ℕ → Option ℕ → Result QueueSettingsError QueueConfigurationUpdate
new_update visibility attempts ttl =
    try (validate_given validate_visibility_timeout visibility) λ _.
      try (validate_given validate_max_delivery_attempts attempts) λ _.
        try (validate_given validate_default_message_ttl ttl) λ _. ok (record {
          visibility_timeout_seconds = visibility;
          max_delivery_attempts = attempts;
          default_message_ttl_seconds = ttl;
        })
