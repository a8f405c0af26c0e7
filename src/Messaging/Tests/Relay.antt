-- ===== src/Messaging/Tests/Relay.antt =====
-- Headers, batches and runs of the relay.
use food_delivery_api.Common.{
  ℕ, suc, ◌≡◌, refl, none, some, Bool, true, false, List, [], ◌∷◌, map, String, ok, err, Action,
}
use mathlib.Core.Option.{map as map_option}
use food_delivery_api.Messaging.Envelope.{
  EventEnvelopeHeaders, missing_event_header, encode_headers, decode_headers, to_wire_headers,
}
use food_delivery_api.Messaging.Envelope.Roundtrip.{decode-encode_headers}
use food_delivery_api.Messaging.Producer.{
  OutboundKafkaMessage, Platform, bucket, topic_messages, to_wire_message, bucket-topic_messages,
}
use food_delivery_api.Messaging.DeadLetter.{RawInboundMessage}
use food_delivery_api.Messaging.Relay.{relay_options, OutboxRelayOptions}
use food_delivery_api.Messaging.Relay.Outbox.{OutboxRow, OutboxDb}
use food_delivery_api.Persistence.{AdvisoryLocks}

abbrev headers : EventEnvelopeHeaders
headers = record {
  event_id = "e1";
  event_type = "ReserveStock";
  aggregate_id = "o1";
  tenant_id = "t1";
  correlation_id = "c1";
  occurred_at = "2025";
}

abbrev same_text : String → String
same_text s = s

-- Without its tenant.
abbrev incomplete : EventEnvelopeHeaders
incomplete = record headers { tenant_id = "" }

decode-encode_headers_example :
    decode_headers same_text (some (to_wire_headers same_text (encode_headers incomplete)))
    ≡ err (missing_event_header "x-tenant-id")
decode-encode_headers_example = decode-encode_headers same_text same_text (λ s. refl) incomplete

complete :
    decode_headers same_text (some (to_wire_headers same_text (encode_headers headers)))
    ≡ ok headers
unfolding decode_headers encode_headers
complete = refl

abbrev platform : Platform ℕ String
platform = record {
  to_bytes = same_text;
  stringify = λ n. "1";
  inject_trace_context = λ headers. headers;
}

abbrev message : String → ℕ → OutboundKafkaMessage ℕ
message topic n = record { topic = topic; key = "k"; headers = []; value = n }

bucket-topic_messages_example :
    map_option
      (bucket platform "a")
      (topic_messages platform (message "a" 1 ∷ message "b" 2 ∷ message "a" 3 ∷ []))
    ≡ some (map (to_wire_message platform) (message "a" 1 ∷ message "a" 3 ∷ []))
bucket-topic_messages_example =
    bucket-topic_messages platform "a" (message "a" 1) (message "b" 2 ∷ message "a" 3 ∷ [])

abbrev raw : RawInboundMessage String
raw = record {
  topic = "order.events";
  partition = 0;
  offset = "5";
  key = none;
  value = none;
  headers = some (to_wire_headers same_text (encode_headers headers));
}

abbrev row : String → ℕ → OutboxRow ℕ
row id created_at = record {
  id = id;
  aggregate_id = "o1";
  topic = "inventory.commands";
  event_type = "ReserveStock";
  payload = created_at;
  tenant_id = "t1";
  correlation_id = "c1";
  created_at = created_at;
  published_at = none;
  attempts = 0;
  trace_parent = none;
}

-- Two rows that wait, a broker that counts the batches, and a lock that is free or not.
abbrev db : OutboxDb ℕ ℕ Bool
db = record { rows = row "b" 2 ∷ row "a" 1 ∷ []; broker = 0; locks = true; now = 9 }

abbrev pg : AdvisoryLocks Bool
pg = record { try_lock = λ key free. (free, false); unlock = λ key free. true }

abbrev taking : List (OutboundKafkaMessage ℕ) → Action ℕ ℕ (Unit {0})
taking messages batches = (ok tt, suc batches)

abbrev refusing : List (OutboundKafkaMessage ℕ) → Action ℕ ℕ (Unit {0})
refusing messages batches = (err 4, batches)

abbrev options : OutboxRelayOptions
options = relay_options none (some 1) none
