-- ===== src/Messaging/DeadLetter.antt =====
-- The message that takes a refused one to the dead letter topic:
-- libs/shared/messaging/src/dead-letter.ts. Bytes with their two readings, and the digits of a
-- number, belong to the platform and are arguments.
use food_delivery_api.Common.{ℕ, ◌≡◌, refl, Option, none, some, List, [], ◌∷◌, String}
use food_delivery_api.Common.Text.{put, concat}
use food_delivery_api.Messaging.Envelope.{
  EventEnvelopeHeaders, Part, bytes, chars, RawKafkaHeaderValue, one, many, undefined,
  RawKafkaHeaders, encode_headers, to_wire_headers,
}
use food_delivery_api.Messaging.Consume.{DropReason, undecodable, handler_exhausted}
use food_delivery_api.Messaging.Producer.{OutboundKafkaMessage}

abbrev pub dead_letter_topic : String → String
dead_letter_topic source_topic = concat source_topic ".dlq"

-- `RawInboundMessage`, with the fields of its message.
pub record RawInboundMessage {ℓ} (B : Type ℓ) : Type ℓ where
  pub topic : String
  pub partition : ℕ
  pub offset : String
  pub key : Option B
  pub value : Option B
  pub headers : Option (RawKafkaHeaders B)

-- The value of a dead letter.
pub record DeadLetter : Type 0 where
  pub source_topic : String
  pub source_partition : ℕ
  pub source_offset : String
  pub reason : DropReason
  pub failure_reason : String
  pub key : Option String
  pub headers : List (String × String)
  pub value : Option String

abbrev pub reason_text : DropReason → String
reason_text undecodable = "undecodable"
reason_text handler_exhausted = "handler-exhausted"

module _ {ℓ} {B : Type ℓ} (to_text : B → String) where
  abbrev last_part : Part B → List (Part B) → Part B
  last_part p [] = p
  last_part p (q ∷ parts) = last_part q parts

  -- `Buffer.isBuffer(single) ? single.toString('utf8') : String(single)`; the last entry of an
  -- empty array is `undefined`.
  abbrev single_text : Part B → String
  single_text (bytes b) = to_text b
  single_text (chars s) = s

  abbrev value_text : RawKafkaHeaderValue B → Option String
  value_text undefined = none
  value_text (one p) = some (single_text p)
  value_text (many []) = some "undefined"
  value_text (many (p ∷ parts)) = some (single_text (last_part p parts))

  abbrev put_if : String → Option String → List (String × String) → List (String × String)
  put_if name none out = out
  put_if name (some s) out = put name s out

  abbrev collect : List (String × String) → RawKafkaHeaders B → List (String × String)
  collect out [] = out
  collect out ((name, value) ∷ headers) = collect (put_if name (value_text value) out) headers

  unfoldable pub raw_headers_to_strings : Option (RawKafkaHeaders B) → List (String × String)
  raw_headers_to_strings none = []
  raw_headers_to_strings (some headers) = collect [] headers

  abbrev text_of : (B → String) → Option B → Option String
  text_of read none = none
  text_of read (some b) = some (read b)

  abbrev key_text : Option B → String
  key_text none = ""
  key_text (some b) = to_text b

  unfoldable pub build_dead_letter_message :
      (B → String)
      → (ℕ → String)
      → RawInboundMessage B
      → DropReason
      → String
      → OutboundKafkaMessage DeadLetter
  unfolding raw_headers_to_strings
  build_dead_letter_message to_base64 digits raw reason failure_reason = record {
    topic = dead_letter_topic raw.topic;
    key = key_text raw.key;
    headers =
        ("x-dlq-source-topic", raw.topic)
        ∷ ("x-dlq-source-partition", digits raw.partition)
        ∷ ("x-dlq-source-offset", raw.offset)
        ∷ ("x-dlq-reason", reason_text reason)
        ∷ ("x-dlq-failure-reason", failure_reason)
        ∷ [];
    value = record {
      source_topic = raw.topic;
      source_partition = raw.partition;
      source_offset = raw.offset;
      reason = reason;
      failure_reason = failure_reason;
      key = text_of to_base64 raw.key;
      headers = raw_headers_to_strings raw.headers;
      value = text_of to_base64 raw.value;
    };
  }

  -- A dead letter keeps the headers of the event that its message was sent with, where bytes in
  -- utf8 are read back as the text they were made of.
  pub dead_letter-encode_headers :
      (to_bytes : String → B) (to_base64 : B → String) (digits : ℕ → String)
      (raw : RawInboundMessage B) (h : EventEnvelopeHeaders) (reason : DropReason)
      (failure_reason : String)
      → ((s : String) → to_text (to_bytes s) ≡ s)
      → raw.headers ≡ some (to_wire_headers to_bytes (encode_headers h))
      → (build_dead_letter_message to_base64 digits raw reason failure_reason).value.headers
        ≡ encode_headers h
  unfolding build_dead_letter_message encode_headers raw_headers_to_strings
  dead_letter-encode_headers to_bytes to_base64 digits raw h reason failure_reason text_back sent =
      rw
        (
          sent,
          text_back h.event_id,
          text_back h.event_type,
          text_back h.aggregate_id,
          text_back h.tenant_id,
          text_back h.correlation_id,
          text_back h.occurred_at,
        )
        refl
