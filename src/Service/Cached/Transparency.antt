-- ===== src/Service/Cached/Transparency.antt =====
-- What a client of the cached service sees (internal/service/cached_job_service.go).
use jobcrawler.Base.{ℕ, String, ◌≡◌, ◌∷◌, inl, inr}
use jobcrawler.World.Errors.{Err, Result, ok, err, Result-cases}
use jobcrawler.World.{Env, Trace, Io, redis_get, redis_set}
use jobcrawler.Redis.Cache.{Codec, cache_get, cache_set}
use jobcrawler.Service.Cached.{cached, after_get, store}

-- A value that was encoded decodes to itself (encoding/json, at the types of the service).
pub record IsFaithful {A : Type 0} (codec : Codec A) : Type 0 where
  pub decode-encode : (a : A) (text : String) → codec.encode a ≡ ok text → codec.decode text ≡ ok a

-- GET answers what the last SET stored, while the key lives.
pub record KeepsValues (env : Env) : Type 0 where
  pub stored :
      (tr : Trace) (key value : String) (ttl : ℕ)
      → env.get_answer (redis_set key value ttl ∷ tr) key ≡ ok value

module _ {A : Type 0} (codec : Codec A) (env : Env) (key : String) (ttl : ℕ)
    (inner : Io (Result A)) where
  -- Where the lookup in the cache gives an error, a client gets the inner service's answer,
  -- whatever becomes of the attempt to store it.
  pub cached_miss :
      (tr : Trace) (e : Err)
      → (cache_get codec env key tr).0 ≡ err e
      → (cached codec env key ttl inner tr).0 ≡ (inner (redis_get key ∷ tr)).0
  unfolding cached cache_get
  cached_miss tr e h =
      rw (h, after_get)
        (elim (Result-cases (inner (redis_get key ∷ tr)).0) [
          | inr (e', failed) ↦ rw (failed, store)
          | inl (a, found) ↦ rw (found, store)
        ])

  -- Where the lookup in the cache and the inner service both give an error, nothing is stored: the
  -- trace ends where the inner service left it.
  pub cached_error :
      (tr : Trace) (e e' : Err)
      → (cache_get codec env key tr).0 ≡ err e
      → (inner (redis_get key ∷ tr)).0 ≡ err e'
      → (cached codec env key ttl inner tr).1 ≡ (inner (redis_get key ∷ tr)).1
  unfolding cached cache_get
  cached_error tr e e' h f = rw (h, after_get, f, store)

  -- A key that holds an encoded value is answered by one GET.
  cached_hit :
      (tr : Trace) (a : A) (text : String)
      → env.get_answer tr key ≡ ok text
      → codec.decode text ≡ ok a
      → cached codec env key ttl inner tr ≡ (ok a, redis_get key ∷ tr)
  unfolding cached cache_get
  cached_hit tr a text h d = rw (h, d, after_get)

  -- Where the first lookup found nothing and the inner service answered, the service gives the
  -- same answer when it is asked again at once, with one GET and without the inner service: given
  -- a codec that decodes what it encoded and a Redis that keeps what was set.
  pub cached_again :
      IsFaithful codec
      → KeepsValues env
      → (tr : Trace) (e : Err) (a : A) (text : String) → (cache_get codec env key tr).0 ≡ err e
      → (inner (redis_get key ∷ tr)).0 ≡ ok a
      → codec.encode a ≡ ok text
      → (later : Trace) × ((cached codec env key ttl inner tr) ≡ (ok a, later))
        × (cached codec env key ttl inner later ≡ (ok a, redis_get key ∷ later))
  unfolding cached cache_get cache_set
  cached_again faithful keeps tr e a text h found coded =
      let later = redis_set key text ttl ∷ (inner (redis_get key ∷ tr)).1 in
      (
        later,
        rw (h, after_get, found, store, coded),
        cached_hit later a text (keeps.stored _ key text ttl) (faithful.decode-encode a text coded),
      )
