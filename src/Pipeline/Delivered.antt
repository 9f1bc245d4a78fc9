-- ===== src/Pipeline/Delivered.antt =====
-- A message that is delivered is as sound as the writes of the trace.
use mathlib.Core.List.{Memᴰ}
use jobcrawler.Base.{
  String, ◌≡◌, Bool, true, false, not, List, [], ◌∷◌, any, count, arith, sym, subst, inl, inr,
  Bool-cases,
}
use jobcrawler.Domain.{JobSource}
use jobcrawler.World.{KafkaMessage, Env, Trace, Call, write_messages}
use jobcrawler.Kafka.{topic_crawl_queue, topic_jobs_raw}
use jobcrawler.Crawler.Registry.{SourceRegistry}
use jobcrawler.Pipeline.{is_sound, is_sound_task, is_sound_result, is_unsound, IsDelivered}

pub count-zero :
    (p : Call → Bool) (tr : Trace) (c : Call) → count p tr ≡ 0 → Memᴰ c tr → p c ≡ false
count-zero p [] c h m = elim m [ ]
count-zero p (d ∷ tr) c h (Memᴰ.head e) = elim (Bool-cases (p d)) [
  | inl bad ↦ absurd (ground arith)
  | inr good ↦ subst (λ x. p x ≡ false) (sym e) good
]
count-zero p (d ∷ tr) c h (Memᴰ.tail m) = count-zero p tr c (ground arith) m

any-false :
    (p : KafkaMessage → Bool) (ms : List KafkaMessage) (m : KafkaMessage)
    → any p ms ≡ false
    → Memᴰ m ms
    → p m ≡ false
any-false p [] m h r = elim r [ ]
any-false p (k ∷ ms) m h (Memᴰ.head e) = subst (λ x. p x ≡ false) (sym e) (ground arith)
any-false p (k ∷ ms) m h (Memᴰ.tail r) = any-false p ms m (ground arith) r

module _ (env : Env) (registry : SourceRegistry) (may_crawl : JobSource → String → Bool) where
  delivered-is_sound :
      (topic : String) (msg : KafkaMessage) (tr : Trace) (d : IsDelivered topic msg tr)
      → count (is_unsound env registry may_crawl) tr ≡ 0
      → is_sound env registry may_crawl d.written ≡ true
  delivered-is_sound topic msg tr d h =
      let fine =
        any-false (λ m. not (is_sound env registry may_crawl m)) d.batch d.written
          (count-zero (is_unsound env registry may_crawl) tr (write_messages d.batch) h d.in_trace)
          d.in_batch in
      elim (Bool-cases (is_sound env registry may_crawl d.written)) [
        | inl good ↦ good
        | inr bad ↦ absurd (ground arith)
      ]

  pub delivered-is_sound_task :
      (msg : KafkaMessage) (tr : Trace)
      → IsDelivered topic_crawl_queue msg tr
      → count (is_unsound env registry may_crawl) tr ≡ 0
      → is_sound_task env registry may_crawl (env.unmarshal_task msg.value) ≡ true
  unfolding is_sound
  delivered-is_sound_task msg tr d h =
      subst (λ v. is_sound_task env registry may_crawl (env.unmarshal_task v) ≡ true) d.same_value
        (rw (d.same_topic) at (delivered-is_sound topic_crawl_queue msg tr d h))

  pub delivered-is_sound_result :
      (msg : KafkaMessage) (tr : Trace)
      → IsDelivered topic_jobs_raw msg tr
      → count (is_unsound env registry may_crawl) tr ≡ 0
      → is_sound_result env registry may_crawl (env.unmarshal_raw msg.value) ≡ true
  unfolding is_sound
  delivered-is_sound_result msg tr d h =
      subst (λ v. is_sound_result env registry may_crawl (env.unmarshal_raw v) ≡ true) d.same_value
        (rw (d.same_topic) at (delivered-is_sound topic_jobs_raw msg tr d h))
