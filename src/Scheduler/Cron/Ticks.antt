-- ===== src/Scheduler/Cron/Ticks.antt =====
-- How many batches Start of internal/scheduler/scheduler.go writes.
use jobcrawler.Base.{
  ℕ, zero, suc, ◌+◌, ◌≤◌, String, ◌≡◌, ◌⊎◌, inl, inr, Bool, true, false, Option, List, [], ◌∷◌,
  keep, get_elem?, length, count, ltb, All, arith, refl, subst, Bool-cases,
}
use jobcrawler.Domain.{JobSource, source_stepstone, source_indeed, source_xing}
use jobcrawler.World.Errors.{Err, ok}
use jobcrawler.World.{Env, Trace, Payload}
use jobcrawler.World.Counting.{writes_to}
use jobcrawler.Kafka.{topic_crawl_queue}
use jobcrawler.Scheduler.{generate_urls}
use jobcrawler.Scheduler.Enqueue.{writes_to-enqueue_source}
use jobcrawler.Scheduler.Cron.{
  Entry, cron_entries, is_accepted, entries, enqueue, fire, fire_all, start,
}

abbrev IsKnown : JobSource → Type 0
IsKnown s = (source_stepstone ≡ s) ⊎ ((source_xing ≡ s) ⊎ (source_indeed ≡ s))

All-keep : (P : Entry → Type 0) (p : Entry → Bool) (es : List Entry) → All P es → All P (keep p es)
All-keep P p [] h = tt
All-keep P p (e ∷ es) (k, h) = elim (Bool-cases (p e)) [
  | inl kept ↦ rw kept (k, All-keep P p es h)
  | inr dropped ↦ rw dropped (All-keep P p es h)
]

IsKnown-entries : (add_func : String → Option Err) → All (λ e. IsKnown e.source) (entries add_func)
IsKnown-entries add_func =
    All-keep (λ e. IsKnown e.source) (is_accepted add_func) cron_entries
      (inl refl, (inr (inl refl), (inr (inr refl), tt)))

-- The numbers that are the place of an entry.
abbrev pub in_range : List Entry → ℕ → Bool
in_range es i = ltb i (length es)

module _ (env : Env) (value : Payload → String)
    (encodes : (p : Payload) → env.marshal p ≡ ok (value p)) where
  abbrev batches : Trace → ℕ
  batches tr = writes_to topic_crawl_queue tr

  has_urls : (s : JobSource) → IsKnown s → 1 ≤ length (generate_urls s)
  unfolding generate_urls
  has_urls s (inl e) = subst (λ n. 1 ≤ length (generate_urls n)) e (omega arith)
  has_urls s (inr (inl e)) = subst (λ n. 1 ≤ length (generate_urls n)) e (omega arith)
  has_urls s (inr (inr e)) = subst (λ n. 1 ≤ length (generate_urls n)) e (omega arith)

  batches-enqueue :
      (s : JobSource) (tr : Trace) → IsKnown s → batches (enqueue env s tr) ≡ batches tr + 1
  batches-enqueue s tr known = writes_to-enqueue_source env value encodes s tr (has_urls s known)

  abbrev one_if : Bool → ℕ
  one_if true = 1
  one_if false = 0

  batches-fire :
      (es : List Entry) (i : ℕ) (tr : Trace)
      → All (λ e. IsKnown e.source) es
      → batches (fire env (get_elem? es i) tr) ≡ batches tr + one_if (in_range es i)
  batches-fire [] i tr h = ground arith
  batches-fire (e ∷ es) zero tr (k, h) =
      let there : in_range (e ∷ es) 0 ≡ true = ground arith in
      rw there (batches-enqueue e.source tr k)
  batches-fire (e ∷ es) (suc i) tr (k, h) = ground (arith, batches-fire es i tr h)

  batches-fire_all :
      (es : List Entry) (is : List ℕ) (tr : Trace)
      → All (λ e. IsKnown e.source) es
      → batches (fire_all env es is tr) ≡ batches tr + count (in_range es) is
  unfolding fire_all
  batches-fire_all es [] tr h = omega arith
  batches-fire_all es (i ∷ is) tr h =
      let rest = batches-fire_all es is (fire env (get_elem? es i) tr) h in
      let now = batches-fire es i tr h in
      elim (Bool-cases (in_range es i)) [
        | inl fired ↦ rw fired (ground (arith, rest, now))
        | inr idle ↦ rw idle (ground (arith, rest, now))
      ]

  pub writes_to-start :
      (add_func : String → Option Err) (first second third later : List ℕ) (tr : Trace)
      → writes_to topic_crawl_queue (start env add_func first second third later tr)
        ≡ writes_to topic_crawl_queue tr
          + (3
              + (count (in_range (entries add_func)) first
                  + (count (in_range (entries add_func)) second
                      + (count (in_range (entries add_func)) third
                          + count (in_range (entries add_func)) later))))
  unfolding start
  writes_to-start add_func first second third later tr =
      let es = entries add_func in
      let known = IsKnown-entries add_func in
      let tr1 = enqueue env source_stepstone (fire_all env es first tr) in
      let tr2 = enqueue env source_xing (fire_all env es second tr1) in
      let tr3 = enqueue env source_indeed (fire_all env es third tr2) in
      omega (
        arith,
        batches-fire_all es first tr known,
        batches-enqueue source_stepstone (fire_all env es first tr) (inl refl),
        batches-fire_all es second tr1 known,
        batches-enqueue source_xing (fire_all env es second tr1) (inr (inl refl)),
        batches-fire_all es third tr2 known,
        batches-enqueue source_indeed (fire_all env es third tr2) (inr (inr refl)),
        batches-fire_all es later tr3 known,
      )
