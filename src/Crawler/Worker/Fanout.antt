-- ===== src/Crawler/Worker/Fanout.antt =====
-- What fanoutListing of internal/crawler/worker.go puts on crawl.queue.
use mathlib.Core.List.{Memᴰ}
use jobcrawler.Base.{
  ◌≤◌, String, ◌≡◌, ◌↔◌, Option, none, some, List, [], ◌∷◌, map, take, length, arith, refl, inl,
  inr, subst,
}
use jobcrawler.World.Errors.{Err, wrap, ok, err, Result-cases}
use jobcrawler.World.{KafkaMessage, Env, Trace, write_messages, crawl_task}
use jobcrawler.Domain.{CrawlTask}
use jobcrawler.Kafka.{Message, topic_crawl_queue, publish_batch, encode_all}
use jobcrawler.Kafka.Batches.{Encodes, encode_all-Encodes}
use jobcrawler.Crawler.Registry.{Source, get_source}
use jobcrawler.Crawler.Worker.{
  CrawlerWorker, detail_message, enqueue_details, parse_source, fanout_listing,
}

-- The first payload that fails is reported.
encode_all-fails :
    (env : Env) (topic : String) (ms : List Message) (e : Err)
    → encode_all env "" topic ms ≡ err e
    → (m : Message) × Memᴰ m ms × ((f : Err) × (env.marshal m.payload ≡ err f))
unfolding encode_all
encode_all-fails env topic [] e h = absurd (ground arith)
encode_all-fails env topic (m ∷ ms) e h = elim (Result-cases (env.marshal m.payload)) [
  | inr (f, failed) ↦ (m, Memᴰ.head refl, (f, failed))
  | inl (value, coded) ↦ elim (Result-cases (encode_all env "" topic ms)) [
    | inl (ks, fine) ↦ absurd (ground arith)
    | inr (f, failed) ↦
        let (m', member, broken) = encode_all-fails env topic ms f failed in
        (m', Memᴰ.tail member, broken)
  ]
]

mem-map :
    (f : String → Message) (urls : List String) (m : Message)
    → Memᴰ m (map f urls)
    → (u : String) × Memᴰ u urls × (m ≡ f u)
mem-map f [] m h = elim h [ ]
mem-map f (u ∷ us) m (Memᴰ.head e) = (u, Memᴰ.head refl, e)
mem-map f (u ∷ us) m (Memᴰ.tail h) =
    let (v, member, e) = mem-map f us m h in (v, Memᴰ.tail member, e)

module _ (env : Env) (w : CrawlerWorker) (task : CrawlTask) (html : String) (tr : Trace) where
  -- The task for one URL of the page: of the source of the listing, for a detail page, now.
  abbrev pub detail_task : String → CrawlTask
  detail_task url = record {
    source = task.source;
    url = url;
    crawl_type = "DETAIL";
    enqueued_at = env.clock tr;
  }

  -- One message on crawl.queue for each URL in turn, under the source, with the text of its task.
  abbrev pub AreDetails : List String → List KafkaMessage → Type 0
  AreDetails [] [] = Unit
  AreDetails [] (k ∷ ks) = ⊥
  AreDetails (u ∷ us) [] = ⊥
  AreDetails (u ∷ us) (k ∷ ks) =
      ((k.topic ≡ "crawl.queue")
        × (k.key ≡ task.source)
        × (env.marshal (crawl_task (detail_task u)) ≡ ok k.value))
      × AreDetails us ks

  -- What fanoutListing comes to: an error before anything is sent, nothing where the page lists
  -- nothing, or one write, and its error where the broker refuses it.
  pub data Fanout (r : Option Err × Trace) : Type 0 where
    unregistered :
        (e : Err)
        → get_source w.registry task.source ≡ err e
        → r ≡ (some (wrap "listing fanout: " e), tr)
        → Fanout r
    unparsed :
        (src : Source) (e : Err)
        → get_source w.registry task.source ≡ ok src
        → src.parse_listing html ≡ err e
        → r ≡ (some (wrap "parse listing: " e), tr)
        → Fanout r
    nothing_listed :
        (src : Source)
        → get_source w.registry task.source ≡ ok src
        → src.parse_listing html ≡ ok []
        → r ≡ (none, tr)
        → Fanout r
    not_encoded :
        (src : Source) (urls : List String) (url : String) (e f : Err)
        → get_source w.registry task.source ≡ ok src
        → src.parse_listing html ≡ ok urls
        → Memᴰ url (take w.max_fanout urls)
        → env.marshal (crawl_task (detail_task url)) ≡ err e
        → r ≡ (some f, tr)
        → Fanout r
    sent :
        (src : Source) (urls : List String) (ks : List KafkaMessage)
        → get_source w.registry task.source ≡ ok src
        → src.parse_listing html ≡ ok urls
        → 1 ≤ length urls
        → AreDetails (take w.max_fanout urls) ks
        → r.1 ≡ write_messages ks ∷ tr
        → (r.0 ≡ none) ↔ (env.write_answer tr ks ≡ none)
        → Fanout r

  abbrev messages : List String → List Message
  messages urls = map (detail_message task (env.clock tr)) urls

  Encodes-AreDetails :
      (urls : List String) (ks : List KafkaMessage)
      → Encodes env "" topic_crawl_queue (messages urls) ks
      → AreDetails urls ks
  Encodes-AreDetails [] [] h = tt
  Encodes-AreDetails [] (k ∷ ks) h = absurd h
  Encodes-AreDetails (u ∷ us) [] h = absurd h
  Encodes-AreDetails (u ∷ us) (k ∷ ks) (one, h) = (one, Encodes-AreDetails us ks h)

  from_urls :
      (src : Source) (urls : List String)
      → get_source w.registry task.source ≡ ok src
      → src.parse_listing html ≡ ok urls
      → Fanout (enqueue_details env w task urls tr)
  unfolding enqueue_details publish_batch
  from_urls src [] found parsed = nothing_listed src found parsed refl
  from_urls src (u ∷ us) found parsed =
      let ms = messages (take w.max_fanout (u ∷ us)) in
      elim (Result-cases (encode_all env "" topic_crawl_queue ms)) [
        | inr (e, failed) ↦
            let (m, member, (f, broken)) = encode_all-fails env topic_crawl_queue ms e failed in
            let (url, listed, same) = mem-map _ (take w.max_fanout (u ∷ us)) m member in
            rw failed (
              not_encoded src (u ∷ us) url f _ found parsed listed
                (subst (λ (x : Message). env.marshal x.payload ≡ err f) same broken) refl)
        | inl (ks, coded) ↦
            let details =
              Encodes-AreDetails (take w.max_fanout (u ∷ us)) ks
                (encode_all-Encodes env "" topic_crawl_queue ms ks coded) in
            rw coded (sent src (u ∷ us) ks found parsed (omega arith) details refl (ground arith))
      ]

  -- Of a listing page whose source has parsers and that lists URLs, one message for each of the first
  -- URLs, as many as the limit allows and in their order, goes to crawl.queue in one write: a DETAIL
  -- task of the listing's own source. There is an error exactly where the source is unknown, the page
  -- cannot be parsed, a task cannot be encoded or the broker refuses the write, and without the write
  -- nothing is called.
  pub fanout_listing-Fanout : Fanout (fanout_listing env w task html tr)
  unfolding fanout_listing
  fanout_listing-Fanout = elim (Result-cases (get_source w.registry task.source)) [
    | inr (e, missing) ↦ rw (missing, parse_source) (unregistered e missing refl)
    | inl (src, found) ↦ elim (Result-cases (src.parse_listing html)) [
      | inr (e, failed) ↦ rw (found, parse_source, failed) (unparsed src e found failed refl)
      | inl (urls, parsed) ↦ rw (found, parse_source, parsed) (from_urls src urls found parsed)
    ]
  ]
