-- ===== src/Processor/Worker/Commits.antt =====
-- The commit of the processor worker (internal/processor/worker.go), and how often it stores a job.
use Prim.Native.Char.{Char}
use jobcrawler.Base.{ℕ, ℤ, ◌+◌, ◌≤◌, String, ◌≡◌, Bool, ◌∷◌, arith, refl}
use jobcrawler.World.{KafkaMessage, Env, Trace, commit_messages}
use jobcrawler.World.Counting.{is_commit, is_upsert, commits, upserts}
use jobcrawler.Kafka.{commit_message}
use jobcrawler.Crawler.Registry.{SourceRegistry}
use jobcrawler.Processor.Worker.{Normaliser, commit, handle_raw, process_message}
use jobcrawler.Processor.Worker.Silence.{commit-IsSilent, upsert-IsSilent, handle_raw-Adds}

module _ (env : Env) (sha256_hex : String → String) (lower : Char → Char) (norm : Normaliser)
    (registry : SourceRegistry) (alerts_wired : Bool) (max_total_jobs : ℤ) where
  -- Whatever the services answer, the last call of processing a message commits it, and nothing else
  -- was committed since its fetch: on success, on a duplicate, at the cap and on every error.
  pub process_message-commits :
      (n : ℕ) (msg : KafkaMessage) (tr : Trace)
      → (before : Trace) × ((process_message env sha256_hex lower norm registry alerts_wired
            max_total_jobs n msg tr).1
          ≡ commit_messages msg ∷ before)
        × (commits before ≡ commits tr)
  unfolding process_message commit commit_message
  process_message-commits n msg tr = (
    (handle_raw env sha256_hex lower norm registry alerts_wired max_total_jobs n msg
        (env.unmarshal_raw msg.value) tr).1,
    refl,
    omega (
      arith,
      handle_raw-Adds env sha256_hex lower norm registry alerts_wired max_total_jobs is_commit
          commit-IsSilent 0 n msg (env.unmarshal_raw msg.value) tr (λ raw e job t. omega arith),
    ),
  )

  -- Processing a message stores at most one job.
  pub upserts-process_message :
      (n : ℕ) (msg : KafkaMessage) (tr : Trace)
      → upserts
          (process_message env sha256_hex lower norm registry alerts_wired max_total_jobs n msg
            tr).1
        ≤ upserts tr + 1
  unfolding process_message commit commit_message
  upserts-process_message n msg tr = omega (
    arith,
    handle_raw-Adds env sha256_hex lower norm registry alerts_wired max_total_jobs is_upsert
        upsert-IsSilent 1 n msg (env.unmarshal_raw msg.value) tr (λ raw e job t. omega arith),
  )
