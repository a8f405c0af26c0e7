-- ===== src/Messaging/Envelope/Roundtrip.antt =====
-- Reading headers back from the bytes that were sent.
use food_delivery_api.Common.{◌≡◌, some, Bool, not, ◌&&◌, String, ok, err, arith, if◌then◌else◌}
use food_delivery_api.Common.Text.{is_empty}
use food_delivery_api.Messaging.Envelope.{
  EventEnvelopeHeaders, missing_event_header, encode_headers, to_wire_headers, decode_headers,
  header_to_string,
}

-- Every header has a text.
abbrev pub is_complete : EventEnvelopeHeaders → Bool
is_complete h =
    not (is_empty h.event_id)
    && not (is_empty h.event_type)
    && not (is_empty h.aggregate_id)
    && not (is_empty h.tenant_id)
    && not (is_empty h.correlation_id)
    && not (is_empty h.occurred_at)

-- The first header, in the order of reading, that has no text.
abbrev pub first_missing : EventEnvelopeHeaders → String
first_missing h =
    if is_empty h.event_id
    then "x-event-id"
    else if is_empty h.event_type
    then "x-event-type"
    else if is_empty h.aggregate_id
    then "x-aggregate-id"
    else if is_empty h.tenant_id
    then "x-tenant-id"
    else if is_empty h.correlation_id
    then "x-correlation-id"
    else "x-occurred-at"

module _ {ℓ} {B : Type ℓ} (to_bytes : String → B) (to_text : B → String)
    (text_back : (s : String) → to_text (to_bytes s) ≡ s) where
  -- Headers that were encoded and sent as bytes are read back unchanged if each of them has a text,
  -- and otherwise throw the error that names the first one without, where utf8 bytes are read back as
  -- the text they were made of.
  pub decode-encode_headers :
      (h : EventEnvelopeHeaders)
      → decode_headers to_text (some (to_wire_headers to_bytes (encode_headers h)))
        ≡ (if is_complete h then ok h else err (missing_event_header (first_missing h)))
  unfolding decode_headers encode_headers header_to_string
  decode-encode_headers h = ground (
    arith,
    text_back h.event_id,
    text_back h.event_type,
    text_back h.aggregate_id,
    text_back h.tenant_id,
    text_back h.correlation_id,
    text_back h.occurred_at,
  )
