-- ===== src/Processor/Normalizer/Titles/Cleaned.antt =====
-- What NormalizeTitle of internal/processor/normalizer.go cuts off the end of a title.
use Prim.Native.Char.{Char}
use Prim.Native.String
use Prim.Native.String.{[], ◌∷◌}
use text.Mathlib.TextLemmas.{cons-append, nil-append, length-nil, length-cons, tail-eq_of_cons-eq}
use jobcrawler.Base.{◌≤◌, String, ◌≡◌, ◌⊎◌, inl, inr, true, refl, sym, ◌∙◌, arith, ◌⧺◌, Bool-cases}
use jobcrawler.Processor.Normalizer.Titles.{is_noise, remove_noise}

-- The text is what is kept and a part that the expression matches, or all of it is kept.
pub record IsCut (s kept : String) : Type 0 where
  pub cut : String
  pub joined : s ≡ kept ⧺ cut
  pub noise : (cut ≡ "") ⊎ (is_noise cut ≡ true)

IsCut-cons : (c : Char) (s kept : String) → IsCut s kept → IsCut (c ∷ s) (c ∷ kept)
IsCut-cons c s kept k = record {
  cut = k.cut;
  joined = rw (cons-append c kept k.cut, ← k.joined) refl;
  noise = k.noise;
}

remove_noise-IsCut : (s : String) → IsCut s (remove_noise s)
unfolding remove_noise
remove_noise-IsCut [] = record { cut = ""; joined = sym (nil-append ""); noise = inl refl }
remove_noise-IsCut (c ∷ s) = elim (Bool-cases (is_noise (c ∷ s))) [
  | inl noise ↦
      rw (remove_noise, noise)
        (record { cut = c ∷ s; joined = sym (nil-append (c ∷ s)); noise = inr noise })
  | inr other ↦ rw (remove_noise, other) (IsCut-cons c s (remove_noise s) (remove_noise-IsCut s))
]

remove_noise-leftmost :
    (s p q : String)
    → s ≡ p ⧺ q
    → is_noise q ≡ true
    → String.count (remove_noise s) ≤ String.count p
unfolding remove_noise
remove_noise-leftmost [] p q e h = omega (arith, length-nil)
remove_noise-leftmost (c ∷ s) [] q e h =
    let whole : is_noise (c ∷ s) ≡ true = rw (e, nil-append q) h in
    rw (remove_noise, whole) (omega arith)
remove_noise-leftmost (c ∷ s) (d ∷ p) q e h =
    let rest = remove_noise-leftmost s p q (tail-eq_of_cons-eq (e ∙ cons-append d p q)) h in
    elim (Bool-cases (is_noise (c ∷ s))) [
      | inl noise ↦ rw (remove_noise, noise) (omega (arith, length-nil))
      | inr other ↦
          rw (remove_noise, other)
            (omega (arith, length-cons c (remove_noise s), length-cons d p, rest))
    ]

-- The cleaning of a title's end keeps the front of it: what is cut off is empty or a blank-framed dash
-- or bar followed by words to the end, and no such part begins further left.
pub remove_noise_lem :
    (s : String)
    → IsCut s (remove_noise s)
      × ((p q : String)
          → s ≡ p ⧺ q
          → is_noise q ≡ true
          → String.count (remove_noise s) ≤ String.count p)
remove_noise_lem s = (remove_noise-IsCut s, remove_noise-leftmost s)
