-- ===== src/TrustBus/Tests.antt =====
-- A bus whose signatures are the texts that they sign, and a publisher who asks for too much.
use Prim.Native.String as Str
use mark_sdk.Prelude.{◌≡◌, refl, String, false, some, List, [], ◌∷◌, any, Dict, dict_get}
use mark_sdk.TrustBus.Messages.{
  external, value_of, trust_named, Texts, is_trust_tag, Meta, dict, BusMessage,
}
use mark_sdk.TrustBus.Bus.{
  BusFragment, Written, or_unknown, publisher_meta, publisher_of, text_at, tag_levels, public_tags,
  recorded_trust, legacy_trust, trust_of, message_from_fragment, clean_tags, signed_record,
  stored_tags, stored_meta, published,
}
use mark_sdk.TrustBus.Trusted.{confirmed, message-published, message-signed}

program : Unit {0}
unfolding value_of trust_named is_trust_tag or_unknown publisher_meta publisher_of text_at
    tag_levels public_tags recorded_trust legacy_trust trust_of message_from_fragment clean_tags
    signed_record stored_tags stored_meta published
program = tt

abbrev plain : Texts String
plain = record {
  normal = λ tag. tag;
  raw_level = λ tag. Str.slice tag 6 (Str.len tag);
  strip = λ s. s;
  trust_signature = λ key publisher trust content.
      Str.◌++◌ key (Str.◌++◌ publisher (Str.◌++◌ (value_of trust) content));
}

abbrev keep : String → List String → Dict Meta → Written
keep content tags metadata = record { content = content; tags = tags; metadata = metadata }

-- An external publisher that tags its message as the system's.
abbrev pushy : BusFragment
pushy =
    published plain keep (some "k") "f1" 7 "Rain" "scraper" external
      ("trust:system" ∷ "weather" ∷ []) []

abbrev pushy_message : BusMessage
pushy_message = record {
  id = "f1";
  content = "Rain";
  publisher = "scraper";
  trust = external;
  tags = "weather" ∷ [];
  timestamp = 7;
  metadata = [];
}

pushy_is_external : message_from_fragment plain (some "k") pushy ≡ some pushy_message
unfolding program
pushy_is_external = refl

pushy_is_kept :
    dict_get "mark_trust" pushy.metadata
    ≡ dict_get "mark_trust" (stored_meta plain (some "k") "Rain" "scraper" external [])
unfolding program
pushy_is_kept = refl

message-published_example :
    (m : BusMessage) × (message_from_fragment plain (some "k") pushy ≡ some m)
    × (m.trust ≡ confirmed plain (some "k") "Rain" "Rain" "scraper" external)
    × (m.publisher ≡ "scraper")
    × (m.content ≡ "Rain")
    × (any (is_trust_tag plain) m.tags ≡ false)
message-published_example =
    message-published plain keep (some "k") "Rain" "scraper" external
      ("trust:system" ∷ "weather" ∷ []) [] "f1" 7 refl refl refl

message-signed_example :
    (d : Dict String) × (dict_get "mark_trust" pushy.metadata ≡ some (dict d))
    × (text_at "sig" d ≡ plain.trust_signature "k" "scraper" external "Rain")
message-signed_example = message-signed plain "k" pushy pushy_message pushy_is_external (λ e. cc)
