-- ===== src/Redis/Cache.antt =====
-- pkg/redis/cache.go: JSON values under keys. A value's codec is an argument.
pub mod Scanning
use jobcrawler.Base.{
  zero, suc, List, [], ◌∷◌, join, ℕ, String, Option, none, some, ◌⧺◌, quote, if◌then◌else◌,
}
use jobcrawler.World.Errors.{Err, sentinel, wrap, redis_nil, is, Result, ok, err}
use jobcrawler.World.{Env, Io, Trace, redis_get, redis_set, redis_del, redis_scan, perform}

-- json.Marshal and json.Unmarshal at one type.
pub record Codec (A : Type 0) : Type 0 where
  pub encode : A → Result String
  pub decode : String → Result A

module _ {A : Type 0} (codec : Codec A) (env : Env) where
  abbrev decoded : String → Result String → Result A
  decoded key (err e) =
      if is e redis_nil
      then err (sentinel redis_nil)
      else err (wrap ("cache get " ⧺ (quote key ⧺ ": ")) e)
  decoded key (ok text) = elim (codec.decode text) [
    | ok a ↦ ok a
    | err e ↦ err (wrap ("cache get " ⧺ (quote key ⧺ ": unmarshal: ")) e)
  ]

  -- Cache.Get
  unfoldable pub cache_get : String → Io (Result A)
  cache_get key tr =
      let (r, tr') = perform (redis_get key) (λ t. env.get_answer t key) tr in (decoded key r, tr')

  abbrev set_error : String → Option Err → Option Err
  set_error key none = none
  set_error key (some e) = some (wrap ("cache set " ⧺ (quote key ⧺ ": ")) e)

  set_encoded : String → ℕ → Result String → Io (Option Err)
  set_encoded key ttl (err e) tr = (some (wrap ("cache set " ⧺ (quote key ⧺ ": marshal: ")) e), tr)
  set_encoded key ttl (ok text) tr =
      let (e, tr') = perform (redis_set key text ttl) (λ t. env.set_answer t key text ttl) tr in
      (set_error key e, tr')

  -- Cache.Set
  unfoldable pub cache_set : String → A → ℕ → Io (Option Err)
  unfolding set_encoded
  cache_set key value ttl = set_encoded key ttl (codec.encode value)

module _ (env : Env) where
  abbrev delete_error : List String → Option Err → Option Err
  delete_error keys none = none
  delete_error keys (some e) = some (wrap ("cache delete [" ⧺ (join " " keys ⧺ "]: ")) e)

  -- Cache.Delete
  unfoldable pub delete : List String → Io (Option Err)
  delete [] tr = (none, tr)
  delete (k ∷ ks) tr =
      let (e, tr') = perform (redis_del (k ∷ ks)) (λ t. env.del_answer t (k ∷ ks)) tr in
      (delete_error (k ∷ ks) e, tr')

  -- The DEL of one round of ScanAndDelete.
  scan_delete : String → List String → Io (Option Err)
  scan_delete pattern [] tr = (none, tr)
  scan_delete pattern (k ∷ ks) tr =
      let (e, tr') = perform (redis_del (k ∷ ks)) (λ t. env.del_answer t (k ∷ ks)) tr in
      (
        elim e [
          | none ↦ none
          | some x ↦ some (wrap ("cache scan-delete " ⧺ (quote pattern ⧺ ": ")) x)
        ],
        tr',
      )

  -- What follows the DEL of a round: its error, the end of the scan, or the next round.
  next_round : Option Err → ℕ → Io (Option (Option Err)) → Io (Option (Option Err))
  next_round (some e) next rest tr = (some (some e), tr)
  next_round none zero rest tr = (some none, tr)
  next_round none (suc n) rest tr = rest tr

  scanned :
      String → Result (List String × ℕ) → (ℕ → Io (Option (Option Err))) → Io (Option (Option Err))
  unfolding scan_delete next_round
  scanned pattern (err e) rest tr =
      (some (some (wrap ("cache scan " ⧺ (quote pattern ⧺ ": ")) e)), tr)
  scanned pattern (ok (keys, next)) rest tr =
      let (e, tr') = scan_delete pattern keys tr in next_round e next (rest next) tr'

  scan_from : ℕ → ℕ → String → Io (Option (Option Err))
  unfolding scanned
  scan_from zero cursor pattern tr = (none, tr)
  scan_from (suc rounds) cursor pattern tr =
      let rest = λ (next : ℕ) (t : Trace). scan_from rounds next pattern t in
      let (r, tr') =
        perform (redis_scan cursor pattern 100) (λ t. env.scan_answer t cursor pattern) tr in
      scanned pattern r rest tr'

  -- Cache.ScanAndDelete, for at most `rounds` rounds; `none`: the scan is not at its end.
  unfoldable pub scan_and_delete : ℕ → String → Io (Option (Option Err))
  unfolding scan_from
  scan_and_delete rounds pattern = scan_from rounds 0 pattern
