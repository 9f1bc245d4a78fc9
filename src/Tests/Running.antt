-- ===== src/Tests/Running.antt =====
-- The theorems of the start and the end of a process and of the deduplicator at sample data.
use mathlib.Core.List.{Permᴰ, Memᴰ}
use jobcrawler.Base.{
  ℕ, ◌+◌, ◌*◌, ◌≤◌, String, ◌≡◌, ◌↔◌, Bool, true, false, not, Option, none, some, List, [], ◌∷◌,
  arith, refl, length, if◌then◌else◌,
}
use jobcrawler.Domain.{source_xing}
use jobcrawler.World.Errors.{Err, failure, ok, err}
use jobcrawler.World.{Env, Trace}
use jobcrawler.Kafka.Admin.{Cluster, create_topics}
use jobcrawler.Kafka.Admin.Created.{IsEnsured, create_topics-IsEnsured}
use jobcrawler.Crawler.Sources.Page.{Html, Json}
use jobcrawler.Scheduler.{generate_urls}
use jobcrawler.Scheduler.Registered.{IsRegistered, generate_urls-IsRegistered}
use jobcrawler.Shutdown.{
  Hook, State, new, register, drain, draining, returned, Steps, step, stop, registered, signalled,
  complete, completed,
}
use jobcrawler.Shutdown.Reached.{done_hooks, shutdown_accounted, shutdown_completes}
use jobcrawler.Startup.{connect_with_retry}
use jobcrawler.Startup.Attempts.{Outcome, connect_with_retry-Outcome}
use jobcrawler.Processor.Dedup.Window.{
  Op, job, pass, run, timed, verdicts, is_before, gone_at, run-refines,
}
use jobcrawler.Tests.Samples.{sample_env, same_text, same_char}

-- A Redis whose keys come to their end, and a clock of a day for each call.
abbrev day_clock : Trace → ℕ
day_clock tr = length tr * (24 * 3600000)

abbrev redis_env : Env
redis_env = record sample_env {
  clock = day_clock;
  set_nx_answer = λ tr key ttl. ok (not (is_before (day_clock tr) (gone_at day_clock tr key)));
}

abbrev three_jobs : List Op
three_jobs =
    job "Go developer" "Qbert" "Berlin"
    ∷ job " go  developer" "Qbert" "Berlin"
    ∷ pass 1
    ∷ job "Cook" "Qbert" "Berlin"
    ∷ []

run-refines_example :
    run same_text same_char redis_env three_jobs []
    ≡ verdicts (timed same_text same_char redis_env three_jobs []) []
run-refines_example = run-refines same_text same_char redis_env (λ tr key ttl. refl) three_jobs

abbrev tracer : Hook
tracer = record { name = "tracer" }

abbrev database : Hook
database = record { name = "postgres" }

abbrev started : State
started = drain (register database (register tracer new))

abbrev half_done : State
half_done = complete database none (tracer ∷ []) started

run_to_half : Steps new half_done
run_to_half = step (registered new tracer) (
    step (registered (register tracer new) database) (
      step (signalled (register database (register tracer new)) refl)
        (step (completed started (tracer ∷ []) [] database none refl) (stop half_done))))

shutdown_accounted_example :
    Permᴰ (tracer ∷ database ∷ []) (tracer ∷ database ∷ [])
    × (draining ≡ returned true → Permᴰ (done_hooks half_done) (tracer ∷ database ∷ []))
shutdown_accounted_example = shutdown_accounted half_done run_to_half

abbrev closing_fails : Hook → Option Err
closing_fails h = some (failure h.name)

shutdown_completes_example :
    (t : State) × Steps started t
    × (t.phase ≡ returned true)
    × ((h : Hook) → Memᴰ h (tracer ∷ database ∷ []) → Memᴰ (h, closing_fails h) t.finished)
shutdown_completes_example = shutdown_completes closing_fails started refl

-- A database that answers from the third attempt on.
abbrev third_attempt : ℕ → Option Err
third_attempt n = if jobcrawler.Base.ltb n 3 then some (failure "refused") else none

connect_with_retry-Outcome_example :
    Outcome third_attempt "postgres" 10 1 10 (connect_with_retry third_attempt "postgres" 10)
connect_with_retry-Outcome_example = connect_with_retry-Outcome third_attempt "postgres" 10

abbrev one_broker : Cluster
one_broker = record {
  dial = λ a. none;
  controller = λ a. ok ("k", 9092);
  join_host_port = λ h p. h;
  read_partitions = λ a. ok ("jobs.raw" ∷ "jobs.raw" ∷ []);
  create = λ a specs. none;
  is_topic_exists = λ e. false;
}

create_topics-IsEnsured_example :
    (broker : String) × Memᴰ broker ("k:9092" ∷ [])
    × IsEnsured one_broker broker (create_topics one_broker ("k:9092" ∷ []))
unfolding create_topics
create_topics-IsEnsured_example = create_topics-IsEnsured one_broker ("k:9092" ∷ []) refl

abbrev no_html : Html
no_html = record { parse = λ t. err (failure "no page"); without = λ p s. p }

abbrev no_json : Json
no_json = record {
  posting = λ t. err (failure "json");
  postings = λ t. err (failure "json");
  place = λ t. err (failure "json");
  places = λ t. err (failure "json");
}

generate_urls-IsRegistered_example :
    (1 ≤ length (generate_urls source_xing))
    ↔ IsRegistered (λ url key. ok url) no_html no_json no_json source_xing
generate_urls-IsRegistered_example =
    generate_urls-IsRegistered (λ url key. ok url) no_html no_json no_json source_xing
