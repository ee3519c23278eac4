-- ===== src/Domain/Queue/Settings.antt =====
-- Which settings, queues and updates pass validation (src/modules/queue/domain/queue.rs).
use retsu.Base.{ℕ, ◌≤◌, ◌≡◌, ◌↔◌, Option, none, some, Text, ok, arith, unwrap_or}
use retsu.Domain.Message.{Uuid}
use retsu.Domain.Queue.{
  QueueSettings, Queue, QueueConfigurationUpdate, new_settings, new_queue, new_update, parse_name,
}

-- The ranges that both the domain and the check constraints of the table `queue` demand.
pub record IsConfiguration (visibility attempts ttl : ℕ) : Type 0 where
  pub visibility_min : 1 ≤ visibility
  pub visibility_max : visibility ≤ 21_600
  pub attempts_min : 1 ≤ attempts
  pub attempts_max : attempts ≤ 100
  pub ttl_min : 1 ≤ ttl
  pub ttl_max : ttl ≤ 2_592_000

abbrev pub IsSettings : QueueSettings → Type 0
IsSettings s =
    IsConfiguration s.visibility_timeout_seconds s.max_delivery_attempts
      s.default_message_ttl_seconds

abbrev pub resolved : Option ℕ → Option ℕ → Option ℕ → QueueSettings
resolved visibility attempts ttl = record {
  visibility_timeout_seconds = unwrap_or visibility 30;
  max_delivery_attempts = unwrap_or attempts 5;
  default_message_ttl_seconds = unwrap_or ttl 604_800;
}

-- `QueueSettings::new` succeeds exactly when what is given, or the default for what is not, lies
-- in the ranges, and returns it.
pub new_settings-eq-ok_iff :
    (visibility attempts ttl : Option ℕ) (s : QueueSettings)
    → (new_settings visibility attempts ttl ≡ ok s)
      ↔ ((s ≡ resolved visibility attempts ttl) × IsSettings s)
unfolding new_settings
new_settings-eq-ok_iff visibility attempts ttl s = ground arith

-- `Queue::new` succeeds exactly when the name parses and the settings are valid; the queue has the
-- given identifier, the name as it was given, and the resolved settings.
pub new_queue-eq-ok_iff :
    (id : Uuid) (name : Text) (visibility attempts ttl : Option ℕ) (q : Queue)
    → (new_queue id name visibility attempts ttl ≡ ok q) ↔ (
        (q.id ≡ id)
        × (parse_name name ≡ ok q.name)
        × (q.settings ≡ resolved visibility attempts ttl)
        × IsSettings q.settings)
unfolding new_queue
new_queue-eq-ok_iff id name visibility attempts ttl q =
    ground (arith, new_settings-eq-ok_iff visibility attempts ttl q.settings)

-- A value that an update gives lies in its range.
abbrev pub InRangeIfGiven : ℕ → ℕ → Option ℕ → Type 0
InRangeIfGiven lo hi none = Unit
InRangeIfGiven lo hi (some v) = (lo ≤ v) × (v ≤ hi)

-- `QueueConfigurationUpdate::new` succeeds exactly when each value that is given lies in its range,
-- and then holds the three values as they were given.
pub new_update-eq-ok_iff :
    (visibility attempts ttl : Option ℕ) (u : QueueConfigurationUpdate)
    → (new_update visibility attempts ttl ≡ ok u) ↔ (
        (u ≡ record {
          visibility_timeout_seconds = visibility;
          max_delivery_attempts = attempts;
          default_message_ttl_seconds = ttl;
        })
        × InRangeIfGiven 1 21_600 visibility
        × InRangeIfGiven 1 100 attempts
        × InRangeIfGiven 1 2_592_000 ttl)
unfolding new_update
new_update-eq-ok_iff visibility attempts ttl u = ground arith
