-- ===== src/Crawler/Sources/Listing/Collected.antt =====
-- Which URLs a listing of internal/crawler yields.
use mathlib.Core.List.{Memᴰ}
use jobcrawler.Base.{
  String, ◌≡◌, ◌⊎◌, ◌↔◌, inl, inr, true, false, Option, none, some, List, [], ◌∷◌, any, str_eq,
  arith, eq_iff, Bool-cases, Option-cases, refl, ◌∙◌, sym, subst, ap,
}
use jobcrawler.Crawler.Sources.Listing.{collect}

-- No URL stands in the list twice, and none of `seen` stands in it.
abbrev pub AreNew : List String → List String → Type 0
AreNew seen [] = Unit
AreNew seen (u ∷ us) = (any (str_eq u) seen ≡ false) × AreNew (u ∷ seen) us

module _ (keep : Option String → Option String) (seen : List String) (x : Option String)
    (xs : List (Option String)) where
  -- The three ways of one round.
  data Round : Type 0 where
    dropped : keep x ≡ none → collect keep seen (x ∷ xs) ≡ collect keep seen xs → Round
    old :
        (u : String)
        → keep x ≡ some u
        → any (str_eq u) seen ≡ true
        → collect keep seen (x ∷ xs) ≡ collect keep seen xs
        → Round
    new :
        (u : String)
        → keep x ≡ some u
        → any (str_eq u) seen ≡ false
        → collect keep seen (x ∷ xs) ≡ u ∷ collect keep (u ∷ seen) xs
        → Round

  round : Round
  unfolding collect
  round = elim (Option-cases (keep x)) [
    | inl e ↦ dropped e (rw (e, collect) refl)
    | inr (u, e) ↦ elim (Bool-cases (any (str_eq u) seen)) [
      | inl h ↦ old u e h (rw (e, h, collect) refl)
      | inr h ↦ new u e h (rw (e, h, collect) refl)
    ]
  ]

some_inj : (u v : String) → some u ≡ some v → u ≡ v
some_inj u v h = ground arith

module _ (keep : Option String → Option String) where
  -- The loop keeps the order, and takes each URL the first time only.
  pub collect-AreNew :
      (seen : List String) (xs : List (Option String)) → AreNew seen (collect keep seen xs)
  unfolding collect
  collect-AreNew seen [] = tt
  collect-AreNew seen (x ∷ xs) = elim (round keep seen x xs) [
    | dropped _ e ↦ subst (AreNew seen) (sym e) (collect-AreNew seen xs)
    | old u _ _ e ↦ subst (AreNew seen) (sym e) (collect-AreNew seen xs)
    | new u _ h e ↦ subst (AreNew seen) (sym e) (h, collect-AreNew (u ∷ seen) xs)
  ]

  abbrev pub IsKept : List (Option String) → String → Type 0
  IsKept xs u = (x : Option String) × Memᴰ x xs × (keep x ≡ some u)

  IsKept-later :
      (x : Option String) (xs : List (Option String)) (u : String) → IsKept xs u → IsKept (x ∷ xs) u
  IsKept-later x xs u (y, r, h) = (y, Memᴰ.tail r, h)

  -- Every URL of the list is one that an element is kept for.
  pub collect_sound :
      (seen : List String) (xs : List (Option String)) (u : String)
      → Memᴰ u (collect keep seen xs)
      → IsKept xs u
  unfolding collect
  collect_sound seen [] u m = elim m [ ]
  collect_sound seen (x ∷ xs) u m = elim (round keep seen x xs) [
    | dropped _ e ↦ IsKept-later x xs u (collect_sound seen xs u (subst (Memᴰ u) e m))
    | old _ _ _ e ↦ IsKept-later x xs u (collect_sound seen xs u (subst (Memᴰ u) e m))
    | new v k _ e ↦ elim (subst (Memᴰ u) e m) [
      | Memᴰ.head same ↦ (x, Memᴰ.head refl, k ∙ ap some (sym same))
      | Memᴰ.tail r ↦ IsKept-later x xs u (collect_sound (v ∷ seen) xs u r)
    ]
  ]

  new_or_seen :
      (seen : List String) (xs : List (Option String)) (u v : String)
      → (any (str_eq u) (v ∷ seen) ≡ true) ⊎ Memᴰ u (collect keep (v ∷ seen) xs)
      → (any (str_eq u) seen ≡ true) ⊎ Memᴰ u (v ∷ collect keep (v ∷ seen) xs)
  new_or_seen seen xs u v (inr m) = inr (Memᴰ.tail m)
  new_or_seen seen xs u v (inl h) = elim (Bool-cases (str_eq u v)) [
    | inl same ↦ inr (Memᴰ.head ((eq_iff u v).0 same))
    | inr other ↦ inl (ground arith)
  ]

  -- Every URL that an element is kept for stands in the list, or was seen before.
  pub collect_complete :
      (seen : List String) (xs : List (Option String)) (x : Option String) (u : String)
      → Memᴰ x xs
      → keep x ≡ some u
      → (any (str_eq u) seen ≡ true) ⊎ Memᴰ u (collect keep seen xs)
  collect_complete seen [] x u m h = elim m [ ]
  collect_complete seen (y ∷ xs) x u (Memᴰ.head same) h = elim (round keep seen y xs) [
    | dropped k e ↦ ground arith
    | old v k o e ↦ inl (rw (some_inj u v (sym h ∙ (ap keep same ∙ k))) o)
    | new v k n e ↦
        inr (subst (Memᴰ u) (sym e) (Memᴰ.head (some_inj u v (sym h ∙ (ap keep same ∙ k)))))
  ]
  collect_complete seen (y ∷ xs) x u (Memᴰ.tail r) h = elim (round keep seen y xs) [
    | dropped k e ↦
        subst (λ us. (any (str_eq u) seen ≡ true) ⊎ Memᴰ u us) (sym e)
          (collect_complete seen xs x u r h)
    | old v k o e ↦
        subst (λ us. (any (str_eq u) seen ≡ true) ⊎ Memᴰ u us) (sym e)
          (collect_complete seen xs x u r h)
    | new v k n e ↦
        subst (λ us. (any (str_eq u) seen ≡ true) ⊎ Memᴰ u us) (sym e)
          (new_or_seen seen xs u v (collect_complete (v ∷ seen) xs x u r h))
  ]

  -- What a listing promises: each URL once, and exactly the URLs that its elements are kept for.
  pub record IsListing (xs : List (Option String)) (urls : List String) : Type 0 where
    pub distinct : AreNew [] urls
    pub exact : (u : String) → Memᴰ u urls ↔ IsKept xs u

  pub collect-IsListing : (xs : List (Option String)) → IsListing xs (collect keep [] xs)
  collect-IsListing xs = record {
    distinct = collect-AreNew [] xs;
    exact = λ u. (
      collect_sound [] xs u,
      λ kept.
          let (x, m, h) = kept in
          elim (collect_complete [] xs x u m h) [ inl h1 ↦ absurd (ground arith) | inr r ↦ r ],
    );
  }
