-- ===== src/Tracing/Carrier.antt =====
-- The laws of the carrier of pkg/tracing/kafka.go.
use text.Mathlib.TextPositions.{eq_refl}
use jobcrawler.Base.{
  String, ◌≡◌, inl, inr, true, false, [], ◌∷◌, ◌++◌, any, str_eq, eq_iff, refl, ap, arith,
  Bool-cases,
}
use jobcrawler.Tracing.{Headers, get, set, keys}

get-set_same : (hs : Headers) (key value : String) → get (set hs key value) key ≡ value
unfolding get set
get-set_same [] key value = rw (set, get, eq_refl key) refl
get-set_same ((k, v) ∷ hs) key value = elim (Bool-cases (str_eq k key)) [
  | inl e ↦ rw (set, e, get, e) refl
  | inr e ↦ rw (set, e, get, e) (get-set_same hs key value)
]

get-set_other :
    (hs : Headers) (key other value : String)
    → str_eq key other ≡ false
    → get (set hs key value) other ≡ get hs other
unfolding get set
get-set_other [] key other value h = rw (set, get, h) refl
get-set_other ((k, v) ∷ hs) key other value h = elim (Bool-cases (str_eq k key)) [
  | inl e ↦
      let differ : str_eq k other ≡ false = rw ((eq_iff k key).0 e) h in
      rw (set, e, get, differ) refl
  | inr e ↦ elim (Bool-cases (str_eq k other)) [
    | inl o ↦ rw (set, e, get, o) refl
    | inr o ↦ rw (set, e, get, o) (get-set_other hs key other value h)
  ]
]

keys-set_old :
    (hs : Headers) (key value : String)
    → any (λ k. str_eq k key) (keys hs) ≡ true
    → keys (set hs key value) ≡ keys hs
unfolding set
keys-set_old [] key value h = ground arith
keys-set_old ((k, v) ∷ hs) key value h = elim (Bool-cases (str_eq k key)) [
  | inl e ↦ rw (set, e) refl
  | inr e ↦ rw (set, e) (ap (λ ks. k ∷ ks) (keys-set_old hs key value (ground arith)))
]

keys-set_new :
    (hs : Headers) (key value : String)
    → any (λ k. str_eq k key) (keys hs) ≡ false
    → keys (set hs key value) ≡ keys hs ++ (key ∷ [])
unfolding set
keys-set_new [] key value h = refl
keys-set_new ((k, v) ∷ hs) key value h = elim (Bool-cases (str_eq k key)) [
  | inl e ↦ absurd (ground arith)
  | inr e ↦ rw (set, e) (ap (λ ks. k ∷ ks) (keys-set_new hs key value (ground arith)))
]

-- What Set does to the headers of a message.
pub record IsStored (hs : Headers) (key value : String) : Type 0 where
  pub written : get (set hs key value) key ≡ value
  pub others :
      (other : String) → str_eq key other ≡ false → get (set hs key value) other ≡ get hs other
  pub replaced : any (λ k. str_eq k key) (keys hs) ≡ true → keys (set hs key value) ≡ keys hs
  pub appended :
      any (λ k. str_eq k key) (keys hs) ≡ false → keys (set hs key value) ≡ keys hs ++ (key ∷ [])

-- After Set, Get reads the value back and reads every other key as before; the keys stay the same and
-- in their order if the key was there, and otherwise the key is appended to them.
pub set-IsStored : (hs : Headers) (key value : String) → IsStored hs key value
set-IsStored hs key value = record {
  written = get-set_same hs key value;
  others = λ other h. get-set_other hs key other value h;
  replaced = keys-set_old hs key value;
  appended = keys-set_new hs key value;
}
