-- ===== src/World/Counting.antt =====
-- Counting calls on a trace.
use jobcrawler.Base.{ℕ, String, Bool, true, false, count, str_eq, any}
use jobcrawler.World.{
  Call, fetch_message, commit_messages, write_messages, upsert_job, http_do, KafkaMessage, Trace,
}

abbrev pub is_fetch : Call → Bool
is_fetch fetch_message = true
is_fetch _ = false

abbrev pub is_commit : Call → Bool
is_commit (commit_messages _) = true
is_commit _ = false

abbrev pub is_upsert : Call → Bool
is_upsert (upsert_job _) = true
is_upsert _ = false

abbrev pub is_fetch_of_page : Call → Bool
is_fetch_of_page (http_do _) = true
is_fetch_of_page _ = false

-- A write of at least one message to the topic.
abbrev pub is_write_to : String → Call → Bool
is_write_to topic (write_messages ms) = any (λ m. str_eq (KafkaMessage.topic m) topic) ms
is_write_to _ _ = false

abbrev pub commits : Trace → ℕ
commits tr = count is_commit tr

abbrev pub upserts : Trace → ℕ
upserts tr = count is_upsert tr

abbrev pub writes_to : String → Trace → ℕ
writes_to topic tr = count (is_write_to topic) tr
