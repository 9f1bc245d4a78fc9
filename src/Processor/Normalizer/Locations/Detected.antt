-- ===== src/Processor/Normalizer/Locations/Detected.antt =====
-- What NormalizeLocation and DetectRemote of internal/processor/normalizer.go promise.
use mathlib.Core.List.{Memᴰ}
use Prim.Native.Char.{Char, code}
use Prim.Native.String.{[], ◌∷◌}
use text.Mathlib.Text.{starts_with}
use jobcrawler.Base.{
  ℕ, zero, String, ◌≡◌, ◌↔◌, inl, inr, Bool, true, false, not, ◌||◌, ◌&&◌, ◌==◌, List, any,
  any-true, any_of_mem, all_chars, contains, map_chars, is_space, trim_left, trim_right, trim_space,
  str_eq, arith, refl, Bool-cases,
}
use jobcrawler.Domain.{RemoteType, remote_full, remote_partial, remote_none}
use jobcrawler.Processor.Normalizer.Matching.{take_run, remove_all}
use jobcrawler.Processor.Normalizer.Locations.{
  match_parens, first_part, normalize_location, detect_remote, remote_full_keywords,
  remote_partial_keywords,
}

all_chars-take_run : (p : ℕ → Bool) (s : String) → all_chars p (take_run p s).0 ≡ true
unfolding take_run all_chars
all_chars-take_run p [] = refl
all_chars-take_run p (c ∷ s) = elim (Bool-cases (p (code c))) [
  | inl passes ↦ rw (passes, take_run, all_chars, passes, all_chars-take_run p s) refl
  | inr stops ↦ rw (stops, take_run) refl
]

module _ (p : ℕ → Bool) where
  all_chars-trim_left :
      (s : String) → all_chars p s ≡ true → all_chars p (trim_left is_space s) ≡ true
  unfolding trim_left all_chars
  all_chars-trim_left [] h = refl
  all_chars-trim_left (c ∷ s) h = elim (Bool-cases (is_space (code c))) [
    | inl space ↦ rw (space, trim_left) (all_chars-trim_left s (ground arith))
    | inr solid ↦ rw (solid, trim_left) h
  ]

  all_chars-trim_right :
      (s : String) → all_chars p s ≡ true → all_chars p (trim_right is_space s) ≡ true
  unfolding trim_right all_chars
  all_chars-trim_right [] h = refl
  all_chars-trim_right (c ∷ s) h =
      let rest = all_chars-trim_right s (ground arith) in
      elim (Bool-cases (is_space (code c) && str_eq (trim_right is_space s) "")) [
        | inl cut ↦ rw (cut, trim_right) refl
        | inr kept ↦ rw (kept, trim_right, all_chars, rest) (ground arith)
      ]

  all_chars-trim_space : (s : String) → all_chars p s ≡ true → all_chars p (trim_space s) ≡ true
  unfolding trim_space
  all_chars-trim_space s h = all_chars-trim_right (trim_left is_space s) (all_chars-trim_left s h)

abbrev pub no_separator : ℕ → Bool
no_separator c = not (c == b',' || c == b'/')

-- No normalised location has a comma or a slash.
pub normalize_location-no_separator :
    (lower : Char → Char) (raw : String)
    → all_chars no_separator (normalize_location lower raw) ≡ true
unfolding normalize_location all_chars
normalize_location-no_separator lower raw =
    elim (Bool-cases
      (starts_with (map_chars lower (remove_all match_parens zero (trim_space raw))) "remote")) [
        | inl remote ↦ rw (remote, normalize_location) refl
        | inr city ↦
            rw (city, normalize_location)
              (all_chars-trim_space no_separator
                (first_part (remove_all match_parens zero (trim_space raw)))
                (all_chars-take_run no_separator (remove_all match_parens zero (trim_space raw))))
      ]

-- A keyword of the list stands in the text.
abbrev pub Mentions : String → List String → Type 0
Mentions text kws = (kw : String) × Memᴰ kw kws × (contains text kw ≡ true)

Mentions-iff :
    (text : String) (kws : List String) → (any (contains text) kws ≡ true) ↔ Mentions text kws
Mentions-iff text kws =
    (any-true (contains text) kws, λ (kw, m, h). any_of_mem (contains text) kws kw m h)

missing :
    (text : String) (kws : List String) → any (contains text) kws ≡ false → Mentions text kws → ⊥
missing text kws h m = ground (arith, (Mentions-iff text kws).1 m)

-- The three kinds of remote work, by the keywords that a text mentions.
pub data IsDetected (text : String) : RemoteType → Type 0 where
  full : Mentions text remote_full_keywords → IsDetected text remote_full
  partial :
      (Mentions text remote_full_keywords → ⊥)
      → Mentions text remote_partial_keywords
      → IsDetected text remote_partial
  on_site :
      (Mentions text remote_full_keywords → ⊥)
      → (Mentions text remote_partial_keywords → ⊥)
      → IsDetected text remote_none

-- A description that mentions a keyword of full remote work is fully remote, whatever else it
-- mentions; one that mentions only keywords of partial remote work is partially remote; and one that
-- mentions neither is not remote.
pub detect_remote-IsDetected :
    (lower : Char → Char) (description : String)
    → IsDetected (map_chars lower description) (detect_remote lower description)
unfolding detect_remote
detect_remote-IsDetected lower description =
    let text = map_chars lower description in
    elim (Bool-cases (any (contains text) remote_full_keywords)) [
      | inl f ↦ rw (detect_remote, f) (full ((Mentions-iff text remote_full_keywords).0 f))
      | inr nf ↦ elim (Bool-cases (any (contains text) remote_partial_keywords)) [
        | inl p ↦
            rw (detect_remote, nf, p)
              (partial (missing text remote_full_keywords nf)
                ((Mentions-iff text remote_partial_keywords).0 p))
        | inr np ↦
            rw (detect_remote, nf, np)
              (on_site (missing text remote_full_keywords nf)
                (missing text remote_partial_keywords np))
      ]
    ]
