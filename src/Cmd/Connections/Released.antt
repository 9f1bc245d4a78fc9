-- ===== src/Cmd/Connections/Released.antt =====
-- What NewDB and RunMigrations of pkg/database and NewClient of pkg/redis leave open.
use jobcrawler.Base.{
  ℕ, String, ◌+◌, ◌≡◌, ◌≢◌, Bool, true, false, Option, none, some, List, ◌==◌, ◌⧺◌, count, refl,
  arith, inl, inr, Bool-cases, Option-cases, if◌then◌else◌,
}
use jobcrawler.World.Errors.{Err, Result, ok, err}
use jobcrawler.Config.{DatabaseConfig, RedisConfig}
use jobcrawler.Cmd.{
  Resource, postgres, redis, Act, migrations_applied, index, opens, closes, IsReleased,
}
use jobcrawler.Cmd.Connections.{
  Driver, new_db, opened_db, new_client, Migrate, from_version, versioned, with_migrator,
  run_migrations,
}

-- One of the resource stays open after a success, and nothing after an error.
abbrev pub held : Resource → Option Err → Resource → ℕ
held r (some e) s = 0
held r none s = if index r == index s then 1 else 0

abbrev pub Leaves : (Resource → ℕ) → List Act → Type 0
Leaves open_at acts = (r : Resource) → count (opens r) acts ≡ count (closes r) acts + open_at r

opened_db-Leaves :
    (cfg : DatabaseConfig) (fault ping : Option Err)
    → Leaves (held postgres (opened_db cfg fault ping).0) (opened_db cfg fault ping).1
opened_db-Leaves cfg (some e) ping r = ground arith
opened_db-Leaves cfg none none r = ground arith
opened_db-Leaves cfg none (some e) r = ground arith

-- NewDB leaves the pool open that it returns, and none where it returns an error.
pub new_db-Leaves :
    (cfg : DatabaseConfig) (driver : Driver)
    → Leaves (held postgres (new_db cfg driver).0) (new_db cfg driver).1
unfolding new_db
new_db-Leaves cfg driver = opened_db-Leaves cfg driver.open_error driver.ping_error

-- NewClient likewise.
pub new_client-Leaves :
    (cfg : RedisConfig) (ping : Option Err)
    → Leaves (held redis (new_client cfg ping).0) (new_client cfg ping).1
unfolding new_client
new_client-Leaves cfg none r = ground arith
new_client-Leaves cfg (some e) r = ground arith

abbrev pub applies : Act → Bool
applies migrations_applied = true
applies _ = false

module _ (m : Migrate) where
  -- No migration has failed halfway, and the version could be asked for.
  pub data IsClean : Type 0 where
    known : (v : ℕ) → m.version ≡ ok (v, false) → IsClean
    unversioned : (e : Err) → m.version ≡ err e → m.is_nil_version e ≡ true → IsClean

  pub data Migration (created : Option Err) (r : Option Err × List Act) : Type 0 where
    refused :
        r.0 ≢ none
        → (created ≡ none → ¬ IsClean)
        → count applies r.1 ≡ 0
        → IsReleased r.1
        → Migration created r
    applied :
        created ≡ none → IsClean → count applies r.1 ≡ 1 → IsReleased r.1 → Migration created r

  not_dirty : (v : ℕ) → m.version ≡ ok (v, true) → ¬ IsClean
  not_dirty v h (known u k) = ground arith
  not_dirty v h (unversioned e k n) = ground arith

  not_unknown : (e : Err) → m.version ≡ err e → m.is_nil_version e ≡ false → ¬ IsClean
  not_unknown e h n (known u k) = ground arith
  not_unknown e h n (unversioned f k nil) = ground arith

  from_dirty :
      (v : ℕ)
      → m.version ≡ ok (v, true)
      → Migration none (with_migrator m (from_version m (v, true)))
  from_dirty v h = refused (λ e. ground arith) (λ _. not_dirty v h) refl (λ r. ground arith)

  from_clean : (v : ℕ) → IsClean → Migration none (with_migrator m (from_version m (v, false)))
  from_clean v clean = applied refl clean refl (λ r. ground arith)

  from_answer :
      (answer : Result (ℕ × Bool))
      → m.version ≡ answer
      → Migration none (with_migrator m (versioned m answer))
  from_answer (ok (v, true)) h = from_dirty v h
  from_answer (ok (v, false)) h = from_clean v (known v h)
  from_answer (err e) h = elim (Bool-cases (m.is_nil_version e)) [
    | inl nil ↦ rw nil (from_clean 0 (unversioned e h nil))
    | inr other ↦
        rw other (refused (λ k. ground arith) (λ _. not_unknown e h other) refl (λ r. ground arith))
  ]

  -- RunMigrations closes its migrator on every path, and calls Up, once, exactly where the migrator
  -- could be created and the version is known and clean or there is none yet; else it returns an error.
  pub run_migrations-Migration :
      (dsn path : String)
      → Migration (m.new_error ("file://" ⧺ path) dsn) (run_migrations m dsn path)
  unfolding run_migrations
  run_migrations-Migration dsn path = elim (Option-cases (m.new_error ("file://" ⧺ path) dsn)) [
    | inl fine ↦ rw fine (from_answer m.version refl)
    | inr (e, failed) ↦ rw failed (refused (λ k. ground arith) (λ k. ground arith) refl (λ r. refl))
  ]

  pub run_migrations-IsReleased : (dsn path : String) → IsReleased (run_migrations m dsn path).1
  run_migrations-IsReleased dsn path = elim (run_migrations-Migration dsn path) [
    | refused reported dirty never balanced ↦ balanced
    | applied created clean once balanced ↦ balanced
  ]

  pub run_migrations-IsClean : (dsn path : String) → (run_migrations m dsn path).0 ≡ none → IsClean
  run_migrations-IsClean dsn path fine = elim (run_migrations-Migration dsn path) [
    | refused reported dirty never balanced ↦ absurd (reported fine)
    | applied created clean once balanced ↦ clean
  ]
