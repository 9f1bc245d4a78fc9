-- ===== src/Cmd/Scheduler/Shipped.antt =====
-- What a run of cmd/scheduler/main.go comes to.
use jobcrawler.Base.{ℕ, String, ◌+◌, ◌≡◌, ◌≤◌, Option, refl, arith, inl, inr, Option-cases}
use jobcrawler.World.Errors.{Err, ok, Result-cases}
use jobcrawler.World.{Env, Trace, Payload}
use jobcrawler.World.Counting.{writes_to}
use jobcrawler.Config.{Viper, load}
use jobcrawler.Kafka.{topic_crawl_queue}
use jobcrawler.Kafka.Admin.{Cluster, create_topics}
use jobcrawler.Scheduler.Cron.Ticks.{writes_to-start}
use jobcrawler.Cmd.{Process, run_main, IsReleased}
use jobcrawler.Cmd.Scheduler.{Firing, main}

module _ (env : Env) (value : Payload → String)
    (encodes : (p : Payload) → env.marshal p ≡ ok (value p)) (viper : Viper) (cluster : Cluster)
    (add_func : String → Option Err) (firing : Firing) (tr : Trace) where
  pub data Ending (r : ℕ × Process) : Type 0 where
    refused : r.0 ≡ 1 → r.1.trace ≡ tr → IsReleased r.1.acts → Ending r
    served :
        r.0 ≡ 0
        → writes_to topic_crawl_queue tr + 3 ≤ writes_to topic_crawl_queue r.1.trace
        → IsReleased r.1.acts
        → Ending r

  -- Where every payload can be encoded, a run of the scheduler either exits with 1 and has made no call,
  -- or has written a batch for each of the three sources; what it opened it has closed in both cases.
  pub main_enqueues : Ending (run_main (main env viper cluster add_func firing) tr)
  unfolding main
  main_enqueues = elim (Result-cases (load viper)) [
    | inr (e, failed) ↦ rw failed (refused refl refl (λ r. refl))
    | inl (cfg, loaded) ↦ elim (Option-cases (create_topics cluster cfg.kafka.brokers).0) [
      | inr (e, failed) ↦ rw (loaded, failed) (refused refl refl (λ r. refl))
      | inl fine ↦
          rw (loaded, fine)
            (served refl
              (omega (
                arith,
                writes_to-start env value encodes add_func firing.first firing.second firing.third
                    firing.later tr,
              ))
              (λ r. ground arith))
    ]
  ]
