-- ===== src/TrustBus/Messages.antt =====
-- The values of the trust bus (src/mark/middlewares/trust_bus/messages.py). The strip and lower of a
-- tag are Python's, and the HMAC over the JSON of publisher, level and content is a parameter.
use Prim.Native.String as Str
use mark_sdk.Prelude.{
  ℕ, String, Bool, true, false, not, ◌==◌, Option, none, some, List, [], ◌∷◌, filter, any, all, leb,
  ltb, Dict, is_in, if◌then◌else◌,
}

pub data PublisherTrust : Type 0 where
  system verified_agent raw_agent external unknown : PublisherTrust

unfoldable pub value_of : PublisherTrust → String
value_of system = "system"
value_of verified_agent = "verified_agent"
value_of raw_agent = "raw_agent"
value_of external = "external"
value_of unknown = "unknown"

-- PublisherTrust(text), or the ValueError.
unfoldable pub trust_named : String → Option PublisherTrust
trust_named s =
    if s == "system"
    then some system
    else if s == "verified_agent"
    then some verified_agent
    else if s == "raw_agent"
    then some raw_agent
    else if s == "external"
    then some external
    else if s == "unknown"
    then some unknown
    else none

unfoldable pub trust_rank : PublisherTrust → ℕ
trust_rank system = 4
trust_rank verified_agent = 3
trust_rank raw_agent = 2
trust_rank external = 1
trust_rank unknown = 0

-- min(levels, key=rank): the first of the lowest
unfoldable pub lowest_from : PublisherTrust → List PublisherTrust → PublisherTrust
lowest_from least [] = least
lowest_from least (l ∷ ls) =
    lowest_from (if ltb (trust_rank l) (trust_rank least) then l else least) ls

unfoldable pub lowest : List PublisherTrust → PublisherTrust
lowest [] = unknown
lowest (l ∷ ls) = lowest_from l ls

-- normal: tag.strip().lower(). raw_level: tag.split(":", 1)[1].strip().lower(), of a trust tag.
-- strip: content.strip()
pub record Texts (Key : Type 0) : Type 0 where
  pub normal : String → String
  pub raw_level : String → String
  pub strip : String → String
  pub trust_signature : Key → String → PublisherTrust → String → String

unfoldable pub is_trust_tag : {Key : Type 0} → Texts Key → String → Bool
is_trust_tag texts tag = Str.slice (texts.normal tag) 0 6 == "trust:"

-- A metadata value: text, or a dict of texts.
pub data Meta : Type 0 where
  text : String → Meta
  dict : Dict String → Meta

pub record BusMessage : Type 0 where
  pub id : String
  pub content : String
  pub publisher : String
  pub trust : PublisherTrust
  pub tags : List String
  pub timestamp : ℕ
  pub metadata : Dict Meta

-- An empty list of topics or tags is no filter.
pub record BusSubscription : Type 0 where
  pub topics : List String
  pub tags : List String
  pub min_trust : PublisherTrust

unfoldable pub has_topic : List String → BusMessage → Bool
has_topic [] m = true
has_topic (t ∷ ts) m = any (λ u. is_in m.tags u) (t ∷ ts)

unfoldable pub matches : BusSubscription → BusMessage → Bool
matches s m =
    if not (has_topic s.topics m)
    then false
    else if not (all (λ t. is_in m.tags t) s.tags)
    then false
    else not (ltb (trust_rank m.trust) (trust_rank s.min_trust))

pub record BusSnapshot : Type 0 where
  pub messages : List BusMessage
  pub captured_at : ℕ

unfoldable pub diff : BusSnapshot → BusSnapshot → List BusMessage
diff s other = filter (λ m. not (any (λ n. n.id == m.id) other.messages)) s.messages

unfoldable pub facts_by_trust : BusSnapshot → PublisherTrust → List BusMessage
facts_by_trust s trust = filter (λ m. leb (trust_rank trust) (trust_rank m.trust)) s.messages
