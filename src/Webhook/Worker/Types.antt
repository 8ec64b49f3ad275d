-- ===== src/Webhook/Worker/Types.antt =====
-- apps/cms/server/utils/webhookWorker.ts: the rows of deliveries, what the worker asks of its
-- environment, and the small functions on an exchange.
use boject_cms.Common.{
  ℕ, zero, suc, ◌+◌, String, Bool, false, ◌&&◌, List, Option, none, some, ltb, leb,
}
use boject_cms.Entry.Transition.{WebhookEvent}
use boject_cms.Webhook.Backoff.{backoff_ms}

pub data DeliveryStatus : Type 0 where
  pending success failed dead_lettered : DeliveryStatus

pub record Delivery (P : Type 0) : Type 0 where
  pub id : String
  pub webhook_id : String
  pub event : WebhookEvent
  pub payload : P
  pub attempts : ℕ
  pub status : DeliveryStatus
  pub last_request_headers : Option (List (String × String))
  pub last_response_code : Option ℕ
  pub last_response_body : Option String
  pub last_error : Option String
  pub completed_at : Option ℕ
  pub next_attempt_at : Option ℕ

pub record Subscriber : Type 0 where
  pub id : String
  pub name : String
  pub is_internal : Bool
  pub url : Option String
  pub secret : Option String

pub data DnsReason : Type 0 where
  private_ip nxdomain timeout : DnsReason

-- `resolveAndBuildDispatcher`: a pinned address or none, a `WebhookDnsError`, or another error.
pub data Resolution : Type 0 where
  resolved : Option String → Resolution
  refused : DnsReason → Resolution
  threw : Resolution

pub record Request : Type 0 where
  pub headers : List (String × String)
  pub body : String
  pub pinned : Option String

-- `fetch` with the reading of the body: a whole response, a response whose body could not be read,
-- or no response.
pub data Exchange : Type 0 where
  responded : ℕ → String → Exchange
  cut_off : ℕ → String → Exchange
  no_response : String → Exchange

pub record Environment (P : Type 0) : Type 0 where
  pub now : ℕ
  pub allow_private : Bool
  pub find_webhook : String → Option Subscriber
  pub resolve : String → Resolution
  pub fetch : String → Request → Exchange
  pub sign_payload : String → ℕ → String → String
  pub stringify : P → String
  pub decimal : ℕ → String
  pub event_name : WebhookEvent → String
  -- A handler by the webhook's name; it gives the text that is kept of the error that it throws.
  pub internal_handlers : String → Option (P → Option String)

-- `slice(0, n)`, on characters.
unfoldable pub slice_to : ℕ → String → String
slice_to zero s = ""
slice_to (suc n) String.[] = ""
slice_to (suc n) (String.◌∷◌ c s) = String.◌∷◌ c (slice_to n s)

abbrev pub dispatch_error_message : DnsReason → String
dispatch_error_message private_ip =
    "Webhook URL resolved to a private IP at dispatch time (possible DNS rebinding)"
dispatch_error_message nxdomain = "Webhook URL hostname could not be resolved at dispatch time"
dispatch_error_message timeout = "Webhook URL hostname resolution timed out at dispatch time"

abbrev pub response_code : Exchange → Option ℕ
response_code (responded code _) = some code
response_code (cut_off code _) = some code
response_code (no_response _) = none

abbrev pub response_body : Exchange → Option String
response_body (responded _ text) = some (slice_to 2048 text)
response_body (cut_off _ _) = none
response_body (no_response _) = none

abbrev pub transport_error : Exchange → Option String
transport_error (responded _ _) = none
transport_error (cut_off _ message) = some (slice_to 500 message)
transport_error (no_response message) = some (slice_to 500 message)

-- `responseCode !== null && responseCode >= 200 && responseCode < 300`.
abbrev pub succeeded : Option ℕ → Bool
succeeded none = false
succeeded (some code) = leb 200 code && ltb code 300

-- `now.getTime() + delay`, in which `null` counts as 0.
abbrev pub retry_at : ℕ → ℕ → ℕ
retry_at now attempts = now + (elim (backoff_ms attempts) [ none ↦ 0 | some delay ↦ delay ])
