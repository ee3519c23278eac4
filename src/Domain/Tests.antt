-- ===== src/Domain/Tests.antt =====
-- Runs and instances for src/modules/queue/domain.
use retsu.Base.{◌≡◌, refl, ◌↔◌, none, some, [], bytes, same, ok, err, pos, negsuc, true, false}
use retsu.Domain.Message.{
  high, medium, Message, invalid_priority, invalid_ttl, from_rank, new_message,
}
use retsu.Domain.Queue.{
  Queue, QueueSettings, QueueConfigurationUpdate, invalid_length, invalid_format, invalid_settings,
  parse_name, new_settings, new_queue, invalid_max_delivery_attempts, invalid_name,
}
use retsu.Domain.Queue.Names.{name_checks, matches_format, parse_name-eq-ok_iff}
use retsu.Domain.Queue.Settings.{IsSettings, resolved, new_settings-eq-ok_iff}

abbrev sample_message : Message
sample_message = record { id = 7; payload = bytes "hi"; priority = medium; ttl_seconds = some 60 }

message_tests :
    (new_message 7 (bytes "hi") (bytes "MEDIUM") (some 60) ≡ ok sample_message)
    × (new_message 7 (bytes "hi") (bytes "URGENT") (some 0) ≡ err invalid_priority)
    × (new_message 7 (bytes "hi") (bytes "LOW") (some 2_592_001) ≡ err invalid_ttl)
    × (from_rank (pos 3) ≡ some high)
    × (from_rank (negsuc 0) ≡ none)
unfolding new_message same from_rank
message_tests = (refl, refl, refl, refl, refl)

abbrev sample_settings : QueueSettings
sample_settings = record {
  visibility_timeout_seconds = 30;
  max_delivery_attempts = 5;
  default_message_ttl_seconds = 60;
}

abbrev sample_queue : Queue
sample_queue = record { id = 1; name = bytes "mail.v1"; settings = sample_settings }

queue_tests :
    (new_queue 1 (bytes "mail.v1") none none (some 60) ≡ ok sample_queue)
    × (new_queue 1 (bytes "mail.") none none none ≡ err (invalid_name invalid_format))
    × (new_queue 1 [] none none none ≡ err (invalid_name invalid_length))
    × (new_queue 1 (bytes "m") none (some 101) (some 0)
        ≡ err (invalid_settings invalid_max_delivery_attempts))
    × (name_checks (bytes "mail.v1") ≡ true)
    × (name_checks (bytes "-mail") ≡ false)
unfolding new_queue parse_name new_settings matches_format
queue_tests = (refl, refl, refl, refl, refl, refl)

parse_name-eq-ok_example :
    (parse_name (bytes "mail.v1") ≡ ok (bytes "mail.v1"))
    ↔ ((bytes "mail.v1" ≡ bytes "mail.v1") × (name_checks (bytes "mail.v1") ≡ true))
parse_name-eq-ok_example = parse_name-eq-ok_iff (bytes "mail.v1") (bytes "mail.v1")

new_settings-eq-ok_example :
    (new_settings none none (some 60) ≡ ok sample_settings)
    ↔ ((sample_settings ≡ resolved none none (some 60)) × IsSettings sample_settings)
new_settings-eq-ok_example = new_settings-eq-ok_iff none none (some 60) sample_settings

abbrev sample_update : QueueConfigurationUpdate
sample_update = record {
  visibility_timeout_seconds = some 90;
  max_delivery_attempts = none;
  default_message_ttl_seconds = none;
}
