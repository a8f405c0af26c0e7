-- ===== src/Messaging/Envelope.antt =====
-- The headers of a message, written and read back: libs/shared/messaging/src/event-envelope.ts and
-- the wire headers of libs/shared/messaging/src/kafka-producer.ts. Bytes, and their two conversions
-- in utf8, belong to the platform and are arguments.
pub mod Roundtrip
use food_delivery_api.Common.{
  Option, none, some, Bool, List, [], ◌∷◌, String, Result, ok, err, if◌then◌else◌,
}
use food_delivery_api.Common.Throws.{◌>>=◌}
use food_delivery_api.Common.Text.{is_empty, lookup}

-- `EventEnvelopeHeaders`
pub record EventEnvelopeHeaders : Type 0 where
  pub event_id : String
  pub event_type : String
  pub aggregate_id : String
  pub tenant_id : String
  pub correlation_id : String
  pub occurred_at : String

abbrev pub event_id_header : String
event_id_header = "x-event-id"

abbrev pub event_type_header : String
event_type_header = "x-event-type"

abbrev pub aggregate_id_header : String
aggregate_id_header = "x-aggregate-id"

abbrev pub tenant_id_header : String
tenant_id_header = "x-tenant-id"

abbrev pub correlation_id_header : String
correlation_id_header = "x-correlation-id"

abbrev pub occurred_at_header : String
occurred_at_header = "x-occurred-at"

-- The error names the header that is missing.
pub data MissingEventHeaderError : Type 0 where
  missing_event_header : String → MissingEventHeaderError

unfoldable pub encode_headers : EventEnvelopeHeaders → List (String × String)
encode_headers headers =
    (event_id_header, headers.event_id)
    ∷ (event_type_header, headers.event_type)
    ∷ (aggregate_id_header, headers.aggregate_id)
    ∷ (tenant_id_header, headers.tenant_id)
    ∷ (correlation_id_header, headers.correlation_id)
    ∷ (occurred_at_header, headers.occurred_at)
    ∷ []

-- `Buffer | string`
pub data Part {ℓ} (B : Type ℓ) : Type ℓ where
  bytes : B → Part B
  chars : String → Part B

-- `RawKafkaHeaderValue`: one part, several, or `undefined`.
pub data RawKafkaHeaderValue {ℓ} (B : Type ℓ) : Type ℓ where
  one : Part B → RawKafkaHeaderValue B
  many : List (Part B) → RawKafkaHeaderValue B
  undefined : RawKafkaHeaderValue B

abbrev pub RawKafkaHeaders {ℓ} : Type ℓ → Type ℓ
RawKafkaHeaders B = List (String × RawKafkaHeaderValue B)

-- What a message carries of a set of headers: `toWireHeaders`.
abbrev pub to_wire_headers {ℓ} :
    {B : Type ℓ} → (String → B) → List (String × String) → RawKafkaHeaders B
to_wire_headers to_bytes [] = []
to_wire_headers to_bytes ((name, value) ∷ headers) =
    (name, one (bytes (to_bytes value))) ∷ to_wire_headers to_bytes headers

module _ {ℓ} {B : Type ℓ} (to_text : B → String) where
  -- `Array.isArray(raw) ? raw[0] : raw`
  abbrev pub first_part : RawKafkaHeaderValue B → Option (Part B)
  first_part (one p) = some p
  first_part (many []) = none
  first_part (many (p ∷ parts)) = some p
  first_part undefined = none

  -- `Buffer.isBuffer(value) ? value.toString('utf8') : value`
  abbrev pub part_text : Part B → String
  part_text (bytes b) = to_text b
  part_text (chars s) = s

  unfoldable pub header_to_string :
      String → Option (RawKafkaHeaderValue B) → Result MissingEventHeaderError String
  header_to_string name none = err (missing_event_header name)
  header_to_string name (some raw) = elim (first_part raw) [
    | none ↦ err (missing_event_header name)
    | some p ↦ if is_empty (part_text p) then err (missing_event_header name) else ok (part_text p)
  ]

  -- `headers ?? {}`
  abbrev pub source_of : Option (RawKafkaHeaders B) → RawKafkaHeaders B
  source_of none = []
  source_of (some headers) = headers

  abbrev read : RawKafkaHeaders B → String → Result MissingEventHeaderError String
  unfolding header_to_string
  read source name = header_to_string name (lookup name source)

  unfoldable pub decode_headers :
      Option (RawKafkaHeaders B) → Result MissingEventHeaderError EventEnvelopeHeaders
  unfolding header_to_string
  decode_headers headers = do
    let source = source_of headers
    event_id ← read source event_id_header
    event_type ← read source event_type_header
    aggregate_id ← read source aggregate_id_header
    tenant_id ← read source tenant_id_header
    correlation_id ← read source correlation_id_header
    occurred_at ← read source occurred_at_header
    ok (record {
      event_id = event_id;
      event_type = event_type;
      aggregate_id = aggregate_id;
      tenant_id = tenant_id;
      correlation_id = correlation_id;
      occurred_at = occurred_at;
    })
