-- ===== src/Messaging/Producer.antt =====
-- Messages on their way to the broker: libs/shared/messaging/src/kafka-producer.ts. Bytes, the
-- printing of values and the header of the active trace belong to other code and are arguments.
use mathlib.Core.Option.{map as map_option}
use food_delivery_api.Common.{
  ◌≡◌, refl, ap, sym, ◌∙◌, Option, none, some, Bool, true, false, List, [], ◌∷◌, ◌++◌, map, String,
  keep, arith, if◌then◌else◌,
}
use food_delivery_api.Common.Text.{text_eq, text_eq_iff, is_empty, lookup, put, lookup-put}
use food_delivery_api.Messaging.Envelope.{RawKafkaHeaders, to_wire_headers}

-- `OutboundKafkaMessage`
pub record OutboundKafkaMessage {ℓ} (V : Type ℓ) : Type ℓ where
  pub topic : String
  pub key : String
  pub headers : List (String × String)
  pub value : V

-- `WireMessage`
pub record WireMessage {ℓ} (B : Type ℓ) : Type ℓ where
  pub key : B
  pub value : B
  pub headers : RawKafkaHeaders B

-- What the producer takes from its platform: `Buffer.from(text, 'utf8')`, `JSON.stringify` and
-- `injectTraceContext`, which completes the headers.
pub record Platform {ℓ κ} (V : Type ℓ) (B : Type κ) : Type (ℓ ⊔ κ) where
  pub to_bytes : String → B
  pub stringify : V → String
  pub inject_trace_context : List (String × String) → List (String × String)

module _ {ℓ κ} {V : Type ℓ} {B : Type κ} (platform : Platform V B) where
  -- `!message.headers.traceparent`
  abbrev untraced : Option String → Bool
  untraced none = true
  untraced (some s) = is_empty s

  abbrev traced_headers : List (String × String) → List (String × String)
  traced_headers headers =
      if untraced (lookup "traceparent" headers)
      then platform.inject_trace_context headers
      else headers

  unfoldable pub to_wire_message : OutboundKafkaMessage V → WireMessage B
  to_wire_message message = record {
    key = platform.to_bytes message.key;
    value = platform.to_bytes (platform.stringify message.value);
    headers = to_wire_headers platform.to_bytes (traced_headers message.headers);
  }

  -- `byTopic.get(topic) ?? []`
  abbrev pub bucket : String → List (String × List (WireMessage B)) → List (WireMessage B)
  bucket topic by_topic = elim (lookup topic by_topic) [ none ↦ [] | some ms ↦ ms ]

  -- The loop of `publishBatch` over its messages.
  unfoldable pub group_by_topic :
      List (String × List (WireMessage B))
      → List (OutboundKafkaMessage V)
      → List (String × List (WireMessage B))
  group_by_topic by_topic [] = by_topic
  group_by_topic by_topic (m ∷ ms) =
      group_by_topic (put m.topic (bucket m.topic by_topic ++ to_wire_message m ∷ []) by_topic) ms

  -- What `publishBatch` hands to `sendBatch`; it sends nothing for no messages.
  unfoldable pub topic_messages :
      List (OutboundKafkaMessage V) → Option (List (String × List (WireMessage B)))
  unfolding group_by_topic
  topic_messages [] = none
  topic_messages (m ∷ ms) = some (group_by_topic [] (m ∷ ms))

  abbrev of_topic : String → List (OutboundKafkaMessage V) → List (OutboundKafkaMessage V)
  of_topic topic = keep (λ m. text_eq m.topic topic)

  bucket-put :
      (topic other : String) (ms : List (WireMessage B))
      (by_topic : List (String × List (WireMessage B)))
      → bucket other (put topic ms by_topic)
        ≡ (if text_eq topic other then ms else bucket other by_topic)
  bucket-put topic other ms by_topic = ground (arith, lookup-put topic other ms by_topic)

  append_assoc : (xs ys zs : List (WireMessage B)) → (xs ++ ys) ++ zs ≡ xs ++ (ys ++ zs)
  append_assoc [] ys zs = refl
  append_assoc (x ∷ xs) ys zs = ap (◌∷◌ x) (append_assoc xs ys zs)

  append_nil : (xs : List (WireMessage B)) → xs ++ [] ≡ xs
  append_nil [] = refl
  append_nil (x ∷ xs) = ap (◌∷◌ x) (append_nil xs)

  -- One message joins the bucket of its topic, and no other.
  bucket-step :
      (topic : String) (by_topic : List (String × List (WireMessage B)))
      (m : OutboundKafkaMessage V) (ms : List (OutboundKafkaMessage V)) (same : Bool)
      → (same ≡ true → m.topic ≡ topic)
      → (if same then bucket m.topic by_topic ++ to_wire_message m ∷ [] else bucket topic by_topic)
          ++ map to_wire_message ms
        ≡ bucket topic by_topic ++ map to_wire_message (if same then m ∷ ms else ms)
  bucket-step topic by_topic m ms true is_topic = ground (
    arith,
    append_assoc (bucket m.topic by_topic) (to_wire_message m ∷ []) (map to_wire_message ms),
    is_topic refl,
  )
  bucket-step topic by_topic m ms false is_topic = refl

  bucket-group_by_topic :
      (topic : String) (by_topic : List (String × List (WireMessage B)))
      (ms : List (OutboundKafkaMessage V))
      → bucket topic (group_by_topic by_topic ms)
        ≡ bucket topic by_topic ++ map to_wire_message (of_topic topic ms)
  unfolding group_by_topic
  bucket-group_by_topic topic by_topic [] = sym (append_nil (bucket topic by_topic))
  bucket-group_by_topic topic by_topic (m ∷ ms) =
      bucket-group_by_topic topic
        (put m.topic (bucket m.topic by_topic ++ to_wire_message m ∷ []) by_topic) ms
      ∙ ap (λ b. b ++ map to_wire_message (of_topic topic ms))
          (bucket-put m.topic topic (bucket m.topic by_topic ++ to_wire_message m ∷ []) by_topic)
      ∙ bucket-step topic by_topic m (of_topic topic ms) (text_eq m.topic topic)
          (text_eq_iff m.topic topic).0

  -- A batch carries for every topic the messages of that topic, all of them and in their order.
  pub bucket-topic_messages :
      (topic : String) (m : OutboundKafkaMessage V) (ms : List (OutboundKafkaMessage V))
      → map_option (bucket topic) (topic_messages (m ∷ ms))
        ≡ some (map to_wire_message (of_topic topic (m ∷ ms)))
  unfolding topic_messages
  bucket-topic_messages topic m ms = ap some (bucket-group_by_topic topic [] (m ∷ ms))
