-- ===== src/World.antt =====
-- What the binaries share with the outside: Go errors, the calls of brokers, stores, sites and
-- clocks, and the actions that make these calls. A call's answer is a parameter: `Env` gives it as
-- a function of everything that was called before, so a theorem for every `Env` covers every
-- behaviour of the services. The trace holds the calls made, the latest first.
pub mod Errors
pub mod Counting
use jobcrawler.Base.{ℕ, String, Bool, true, Option, List, ◌∷◌}
use jobcrawler.Domain.{CrawlTask, RawCrawlResult, Job, JobAlert, JobAlertMatch}
use jobcrawler.World.Errors.{Err, Result}

-- kafka.Message; `[]byte` fields are texts.
pub record KafkaMessage : Type 0 where
  pub topic : String
  pub key : String
  pub value : String
  pub headers : List (String × String)
  pub offset : ℕ

-- crawler.failedMessage and processor.FailedMessage; the first has no `attempts`.
pub record FailedMessage : Type 0 where
  pub original_topic : String
  pub original_key : String
  pub payload : String
  pub error : String
  pub attempts : Option ℕ
  pub failed_at : ℕ

-- What is handed to `Publish` as `payload any`.
pub data Payload : Type 0 where
  crawl_task : CrawlTask → Payload
  raw_result : RawCrawlResult → Payload
  failed : FailedMessage → Payload
  processed : Job → Payload
  alert_match : JobAlertMatch → Payload

-- The commands of the rate limiter's pipeline. `z_rem_below key start` stands for
-- ZREMRANGEBYSCORE key 0 (start - 1): scores are whole numbers of milliseconds.
pub data Command : Type 0 where
  z_rem_below : String → ℕ → Command
  z_card : String → Command
  z_add : String → ℕ → String → Command
  expire : String → ℕ → Command

-- The values that Postgres returns with an upserted row.
pub record Stored : Type 0 where
  pub id : String
  pub created_at : ℕ
  pub updated_at : ℕ

pub record Response : Type 0 where
  pub status : ℕ
  pub body : Result String

-- One call of something that is not part of the program.
pub data Call : Type 0 where
  fetch_message : Call
  write_messages : List KafkaMessage → Call
  commit_messages : KafkaMessage → Call
  set_nx : String → ℕ → Call
  pipeline : List Command → Call
  redis_get : String → Call
  redis_set : String → String → ℕ → Call
  redis_del : List String → Call
  redis_scan : ℕ → String → ℕ → Call
  redis_incr : String → Call
  redis_h_set : String → String → String → Call
  http_do : String → Call
  wait : ℕ → Call
  upsert_job : Job → Call
  count_jobs : Call
  delete_older_than : ℕ → Call
  list_alerts : String → Call

abbrev pub Trace : Type 0
Trace = List Call

-- The answers of the services, and what the program computes with by code outside the repository:
-- the JSON codec, net/url, math/rand, the layout of times and the robots.txt parser, whose group is nil or tests a path.
pub record Env : Type 0 where
  pub fetch_answer : Trace → Result KafkaMessage
  pub write_answer : Trace → List KafkaMessage → Option Err
  pub commit_answer : Trace → KafkaMessage → Option Err
  pub set_nx_answer : Trace → String → ℕ → Result Bool
  pub pipeline_answer : Trace → List Command → Result (List ℕ)
  pub get_answer : Trace → String → Result String
  pub set_answer : Trace → String → String → ℕ → Option Err
  pub del_answer : Trace → List String → Option Err
  pub scan_answer : Trace → ℕ → String → Result (List String × ℕ)
  pub incr_answer : Trace → String → Option Err
  pub h_set_answer : Trace → String → Option Err
  pub http_answer : Trace → String → Result Response
  pub wait_answer : Trace → ℕ → Option Err
  pub upsert_answer : Trace → Job → Result Stored
  pub refresher_ticks : Trace → Bool
  pub count_answer : Trace → Result ℕ
  pub delete_answer : Trace → ℕ → Result ℕ
  pub alerts_answer : Trace → String → Result (List JobAlert)
  pub clock : Trace → ℕ
  pub marshal : Payload → Result String
  pub unmarshal_task : String → Result CrawlTask
  pub unmarshal_raw : String → Result RawCrawlResult
  pub url_origin : String → Result String
  pub build_request : String → Option Err
  pub rand : Trace → ℕ → ℕ
  pub rfc3339 : ℕ → String
  pub robots_group : String → Result (Option (String → Bool))

-- An action makes calls and returns.
abbrev pub Io : Type 0 → Type 0
Io A = Trace → A × Trace

infixl 5 ◌>>=◌ ◌>>◌
abbrev pub ◌>>=◌ : {A B : Type 0} → Io A → (A → Io B) → Io B
◌>>=◌ m f tr = let (a, tr') = m tr in f a tr'

abbrev pub ◌>>◌ : {A B : Type 0} → Io A → Io B → Io B
◌>>◌ m k tr = let (_, tr') = m tr in k tr'

abbrev pub pure : {A : Type 0} → A → Io A
pure a tr = (a, tr)

-- Makes a call, and answers from what was called before.
abbrev pub perform : {A : Type 0} → Call → (Trace → A) → Io A
perform c answer tr = (answer tr, c ∷ tr)

-- time.Now leaves no call behind.
abbrev pub now : Env → Io ℕ
now env tr = (env.clock tr, tr)
