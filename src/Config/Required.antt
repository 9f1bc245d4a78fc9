-- ===== src/Config/Required.antt =====
-- Which settings Load of config/load.go lets through.
use jobcrawler.Base.{
  String, ◌≡◌, ◌≢◌, inl, inr, Bool, true, false, ◌||◌, none, some, ◌++◌, str_eq, eq_iff, refl, ap,
  sym, ◌∙◌, subst, arith, Bool-cases, Option-cases, contains,
}
use jobcrawler.World.Errors.{Err, error_text, Result, ok, err}
use jobcrawler.Config.{
  Config, Viper, no_brokers, missing_if, missing_of, missing_error, validate, settings, load,
}

some_inj : (x y : Err) → some x ≡ some y → x ≡ y
some_inj x y h = ap (λ r. elim r [ some z ↦ z | none ↦ x ]) h

-- The settings that every binary needs.
pub record IsComplete (cfg : Config) : Type 0 where
  pub dsn : cfg.database.dsn ≢ ""
  pub addr : cfg.redis.addr ≢ ""
  pub brokers : no_brokers cfg.kafka.brokers ≡ false

filled : (s : String) → str_eq s "" ≡ false → s ≢ ""
filled s h e = ground (arith, (eq_iff s "").1 e)

none_missing :
    (a b c : Bool) (x y z : String)
    → missing_error (missing_if a x ++ (missing_if b y ++ missing_if c z)) ≡ none
    → (a ≡ false) × (b ≡ false) × (c ≡ false)
none_missing false false false x y z h = (refl, refl, refl)
none_missing false false true x y z h = ground arith
none_missing false true c x y z h = ground arith
none_missing true b c x y z h = ground arith

validate-IsComplete : (cfg : Config) → validate cfg ≡ none → IsComplete cfg
unfolding validate missing_of
validate-IsComplete cfg h =
    let (a, b, c) =
      none_missing (str_eq cfg.database.dsn "") (str_eq cfg.redis.addr "")
        (no_brokers cfg.kafka.brokers) _ _ _ h in
    record { dsn = filled cfg.database.dsn a; addr = filled cfg.redis.addr b; brokers = c }

ok_inj : (x y : Config) → ok x ≡ ok y → x ≡ y
ok_inj x y h = ap (λ r. elim r [ ok z ↦ z | err e ↦ x ]) h

settings-IsComplete :
    (read : Result Config) (cfg : Config)
    → settings read ≡ ok cfg
    → (read ≡ ok cfg) × IsComplete cfg
settings-IsComplete (err e) cfg h = ground arith
settings-IsComplete (ok c) cfg h = elim (Option-cases (validate c)) [
  | inl fine ↦
      let same : c ≡ cfg = ok_inj c cfg (sym (rw fine refl) ∙ h) in
      (ap ok same, subst IsComplete same (validate-IsComplete c fine))
  | inr (e, wrong) ↦ absurd (ground arith)
]

-- What Load returns without an error is what viper read, it has a data source name, an address of Redis
-- and a broker, and a .env that could not be read was missing.
pub load-IsComplete :
    (v : Viper) (cfg : Config)
    → load v ≡ ok cfg
    → (v.unmarshal ≡ ok cfg)
      × IsComplete cfg
      × ((e : Err)
          → v.read_in_config ≡ some e
          → (v.is_file_not_found e || contains (error_text e) "no such file") ≡ true)
unfolding load
load-IsComplete v cfg h = elim (Option-cases v.read_in_config) [
  | inl fine ↦
      let (read, complete) = settings-IsComplete v.unmarshal cfg (sym (rw (load, fine) refl) ∙ h) in
      (read, complete, λ e k. ground arith)
  | inr (e, broken) ↦
      elim (Bool-cases (v.is_file_not_found e || contains (error_text e) "no such file")) [
        | inl missing ↦
            let (read, complete) =
              settings-IsComplete v.unmarshal cfg (sym (rw (load, broken, missing) refl) ∙ h) in
            (read, complete, λ e' k. rw (some_inj e' e (sym k ∙ broken)) missing)
        | inr found ↦ absurd (ground arith)
      ]
]
