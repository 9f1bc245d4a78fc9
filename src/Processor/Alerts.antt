-- ===== src/Processor/Alerts.antt =====
-- internal/processor/alert_matcher.go. Lower case is taken character by character.
pub mod Matching
use Prim.Native.Char.{Char}
use jobcrawler.Base.{
  ℤ, pos, negsuc, ℕ, String, Bool, true, false, not, ◌&&◌, ◌||◌, Option, none, some, List, [], ◌∷◌,
  any, keep, ltb, str_eq, contains, map_chars, if◌then◌else◌,
}
use jobcrawler.Domain.{Job, JobAlert, JobAlertMatch, SearchFilter, alert_freq_immediate}
use jobcrawler.World.Errors.{Err, Result, ok, err}
use jobcrawler.World.{Env, Io, alert_match, list_alerts, perform}
use jobcrawler.Kafka.{topic_jobs_processed, publish}

abbrev pub is_empty : List String → Bool
is_empty [] = true
is_empty (_ ∷ _) = false

-- `job.SalaryMin == nil || *job.SalaryMin < filter.SalaryMin`
abbrev pub pays_less : Option ℤ → ℕ → Bool
pays_less none least = true
pays_less (some (pos n)) least = ltb n least
pays_less (some (negsuc n)) least = true

module _ (lower : Char → Char) where
  abbrev pub to_lower : String → String
  to_lower s = map_chars lower s

  -- hasTagIntersection: the set of the job's tags in lower case, asked for each tag of the filter.
  unfoldable pub has_tag_intersection : List String → List String → Bool
  has_tag_intersection job_tags filter_tags =
      any (λ t. any (λ j. str_eq (to_lower j) (to_lower t)) job_tags) filter_tags

  abbrev pub query_matches : Job → String → Bool
  query_matches job query =
      str_eq query ""
      || (contains (to_lower job.title) (to_lower query)
          || contains (to_lower job.description) (to_lower query))

  -- matchesFilter: each criterion that is set can refuse the job.
  unfoldable pub matches_filter : Job → SearchFilter → Bool
  unfolding has_tag_intersection
  matches_filter job filter =
      if not (query_matches job filter.query)
      then false
      else if not (is_empty filter.tags) && not (has_tag_intersection job.tags filter.tags)
      then false
      else if not (str_eq filter.remote "") && not (str_eq job.remote filter.remote)
      then false
      else if ltb 0 filter.salary_min && pays_less job.salary_min filter.salary_min
      then false
      else true

  -- The loop of FindMatchingAlerts.
  unfoldable pub select_alerts : Job → List JobAlert → List JobAlert
  unfolding matches_filter
  select_alerts job alerts =
      keep (λ a. JobAlert.active a && matches_filter job (JobAlert.filter a)) alerts

  abbrev pub selected : Job → Result (List JobAlert) → Result (List JobAlert)
  selected job (err e) = err e
  selected job (ok alerts) = ok (select_alerts job alerts)

  -- FindMatchingAlerts
  unfoldable pub find_matching_alerts : Env → Job → Io (Result (List JobAlert))
  find_matching_alerts env job tr =
      let (r, tr') =
        perform (list_alerts alert_freq_immediate) (λ t. env.alerts_answer t alert_freq_immediate)
          tr in
      (selected job r, tr')

-- NotifyMatches: one event for each alert, under the job's id as trace id; errors are ignored.
unfoldable pub notify_matches : Env → Job → List JobAlert → Io (Unit {0})
notify_matches env job [] tr = (tt, tr)
notify_matches env job (alert ∷ alerts) tr =
    let event : JobAlertMatch = record {
      alert_id = alert.id;
      user_email = alert.user_email;
      job_id = job.id;
      job_title = job.title;
      job_url = job.url;
      frequency = alert.frequency;
      matched_at = env.rfc3339 (env.clock tr);
    } in
    let (_, tr') = publish env job.id topic_jobs_processed alert.id (alert_match event) tr in
    notify_matches env job alerts tr'
