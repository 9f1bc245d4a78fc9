-- ===== src/Processor/Worker/Normalised.antt =====
-- The worker of internal/processor/worker.go with the operations of internal/processor/normalizer.go:
-- what the jobs that it stores look like.
use Prim.Native.Char.{Char}
use jobcrawler.Base.{
  ℕ, ℤ, String, ◌≡◌, Bool, true, false, not, ◌&&◌, List, [], ◌∷◌, any, count, str_eq, all_chars,
  arith, refl,
}
use jobcrawler.Domain.{Job, RawCrawlResult, RemoteType, remote_full, remote_partial, remote_none}
use jobcrawler.World.{KafkaMessage, Env, Trace, Call, upsert_job}
use jobcrawler.Crawler.Registry.{RawJob, SourceRegistry}
use jobcrawler.Processor.Normalizer.Titles.{normalize_title}
use jobcrawler.Processor.Normalizer.Locations.{normalize_location, detect_remote}
use jobcrawler.Processor.Normalizer.Locations.Detected.{
  no_separator, normalize_location-no_separator, IsDetected, full, partial, on_site,
  detect_remote-IsDetected,
}
use jobcrawler.Processor.Normalizer.Keywords.{extract_tags}
use jobcrawler.Processor.Normalizer.Salary.{Salary, parse_salary}
use jobcrawler.Processor.Normalizer.Salary.Currency.{
  eur, usd, gbp, chf, IsSalary, missing, given, parse_salary-IsSalary,
}
use jobcrawler.Processor.Worker.{Normaliser, build_job, process_message, commit}
use jobcrawler.Processor.Worker.Silence.{IsSilent, handle_raw-Adds}
use jobcrawler.Kafka.{commit_message}

-- NewNormalizer
abbrev pub new_normaliser : (Char → Char) → (Char → Char) → (List String → List String) → Normaliser
new_normaliser lower upper map_order = record {
  normalize_title = λ s. normalize_title upper s;
  normalize_location = λ s. normalize_location lower s;
  detect_remote = λ s. detect_remote lower s;
  extract_tags = λ t d. extract_tags lower map_order t d;
  parse_salary = λ s. parse_salary s;
}

abbrev pub is_code : String → Bool
is_code cur = any (str_eq cur) ("" ∷ "EUR" ∷ "USD" ∷ "GBP" ∷ "CHF" ∷ [])

abbrev pub is_remote_type : RemoteType → Bool
is_remote_type r = any (str_eq r) (remote_full ∷ remote_partial ∷ remote_none ∷ [])

-- The currency is a code or missing, the city is one name, and the kind of remote work is known.
abbrev pub is_clean : Job → Bool
is_clean job =
    is_code job.salary_currency
    && all_chars no_separator job.location.city
    && is_remote_type job.remote

abbrev pub is_unclean : Call → Bool
is_unclean c = elim c [ upsert_job job ↦ not (is_clean job) | _ ↦ false ]

unclean-IsSilent : IsSilent is_unclean
unclean-IsSilent = record {
  failures = λ _ _. refl;
  results = λ _ _. refl;
  claims = λ _ _. refl;
  alerts = λ _. refl;
  counts = refl;
}

is_code-IsSalary : (s : Salary) → IsSalary s → is_code s.2 ≡ true
is_code-IsSalary _ missing = refl
is_code-IsSalary _ (given low high _ eur) = refl
is_code-IsSalary _ (given low high _ usd) = refl
is_code-IsSalary _ (given low high _ gbp) = refl
is_code-IsSalary _ (given low high _ chf) = refl

is_remote_type-IsDetected :
    (text : String) (r : RemoteType) → IsDetected text r → is_remote_type r ≡ true
is_remote_type-IsDetected text _ (full m) = refl
is_remote_type-IsDetected text _ (partial n m) = refl
is_remote_type-IsDetected text _ (on_site n m) = refl

module _ (env : Env) (sha256_hex : String → String) (lower upper : Char → Char)
    (map_order : List String → List String) (registry : SourceRegistry) (alerts_wired : Bool)
    (max_total_jobs : ℤ) where
  abbrev norm : Normaliser
  norm = new_normaliser lower upper map_order

  build_job-clean :
      (raw : RawCrawlResult) (raw_job : RawJob)
      → is_clean
          (build_job env sha256_hex lower norm registry alerts_wired max_total_jobs raw raw_job)
        ≡ true
  unfolding build_job
  build_job-clean raw raw_job =
      rw
        (
          is_code-IsSalary (parse_salary raw_job.salary_text)
              (parse_salary-IsSalary raw_job.salary_text),
          normalize_location-no_separator lower raw_job.location,
          is_remote_type-IsDetected _ (detect_remote lower raw_job.description)
              (detect_remote-IsDetected lower raw_job.description),
        )
        refl

  -- Whatever the sources find and the services answer, the worker with the normaliser of the repository
  -- stores no job whose currency is neither missing nor EUR, USD, GBP or CHF, whose city has a comma or
  -- a slash, or whose kind of remote work is none of the three.
  pub process_message-clean :
      (n : ℕ) (msg : KafkaMessage) (tr : Trace)
      → count is_unclean
          (process_message env sha256_hex lower norm registry alerts_wired max_total_jobs n msg
            tr).1
        ≡ count is_unclean tr
  unfolding process_message commit commit_message
  process_message-clean n msg tr = omega (
    arith,
    handle_raw-Adds env sha256_hex lower norm registry alerts_wired max_total_jobs is_unclean
        unclean-IsSilent 0 n msg (env.unmarshal_raw msg.value) tr
        (λ raw e raw_job t. rw (build_job-clean raw raw_job) (omega arith)),
  )
