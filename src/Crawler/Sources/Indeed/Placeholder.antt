-- ===== src/Crawler/Sources/Indeed/Placeholder.antt =====
-- Which ids internal/crawler/indeed.go drops as placeholders, and which URLs it lists.
use jobcrawler.Base.{
  Option, none, some, ◌⧺◌, trim_space, ℕ, String, ◌≡◌, ◌≤◌, ◌+◌, ◌↔◌, inl, inr, true, false, List,
  [], ◌∷◌, any, length, ◌==◌, arith, Bool-cases, refl,
}
use jobcrawler.Crawler.Sources.Page.{Page}
use jobcrawler.Crawler.Sources.Indeed.{
  codes, insert_all, is_placeholder, is_jk, indeed_base, keep_indeed,
}

-- The numbers differ from each other and from those of `seen`.
abbrev pub Differ : List ℕ → List ℕ → Type 0
Differ seen [] = Unit
Differ seen (c ∷ cs) = (any (λ d. d == c) seen ≡ false) × Differ (c ∷ seen) cs

length-insert_all : (seen cs : List ℕ) → length (insert_all seen cs) ≤ length seen + length cs
unfolding insert_all
length-insert_all seen [] = omega arith
length-insert_all seen (c ∷ cs) = elim (Bool-cases (any (λ d. d == c) seen)) [
  | inl old ↦ rw old (omega (arith, length-insert_all seen cs))
  | inr new ↦ rw new (omega (arith, length-insert_all (c ∷ seen) cs))
]

insert_all-Differ :
    (seen cs : List ℕ) → Differ seen cs → length (insert_all seen cs) ≡ length seen + length cs
unfolding insert_all
insert_all-Differ seen [] d = omega arith
insert_all-Differ seen (c ∷ cs) (new, d) = rw new (omega (arith, insert_all-Differ (c ∷ seen) cs d))

Differ-of_length :
    (seen cs : List ℕ) → length (insert_all seen cs) ≡ length seen + length cs → Differ seen cs
unfolding insert_all
Differ-of_length seen [] h = tt
Differ-of_length seen (c ∷ cs) h = elim (Bool-cases (any (λ d. d == c) seen)) [
  | inl old ↦ absurd (ground (arith, length-insert_all seen cs))
  | inr new ↦ (new, Differ-of_length (c ∷ seen) cs (ground arith))
]

-- An id is taken for a placeholder exactly when it has 16 characters and no two are the same.
pub is_placeholder_lem :
    (jk : String) → (is_placeholder jk ≡ true) ↔ ((length (codes jk) ≡ 16) × Differ [] (codes jk))
unfolding is_placeholder
is_placeholder_lem jk = (
  λ h. (ground arith, Differ-of_length [] (codes jk) (ground arith)),
  λ (h, d). ground (arith, insert_all-Differ [] (codes jk) d),
)

-- The URL of a card whose data-jk is an id and no placeholder.
pub record IsJobUrl (url : String) : Type 0 where
  pub jk : String
  pub located : url ≡ indeed_base ⧺ ("/viewjob?jk=" ⧺ jk)
  pub shaped : is_jk jk ≡ true
  pub genuine : ((length (codes jk) ≡ 16) × Differ [] (codes jk)) → ⊥

pub viewjob-IsJobUrl :
    (jk : String)
    → is_jk jk ≡ true
    → is_placeholder jk ≡ false
    → IsJobUrl (indeed_base ⧺ ("/viewjob?jk=" ⧺ jk))
viewjob-IsJobUrl jk shaped genuine = record {
  jk = jk;
  located = refl;
  shaped = shaped;
  genuine = λ d. ground (arith, (is_placeholder_lem jk).1 d);
}

pub keep_indeed_id :
    (attr : Option String) (url : String)
    → keep_indeed attr ≡ some url
    → (jk : String) × (is_jk jk ≡ true)
      × (is_placeholder jk ≡ false)
      × (indeed_base ⧺ ("/viewjob?jk=" ⧺ jk) ≡ url)
unfolding keep_indeed
keep_indeed_id none url h = ground arith
keep_indeed_id (some attr) url h = elim (Bool-cases (is_jk (trim_space attr))) [
  | inr wrong ↦ absurd (ground arith)
  | inl shaped ↦ elim (Bool-cases (is_placeholder (trim_space attr))) [
    | inl p ↦ absurd (ground arith)
    | inr genuine ↦ (trim_space attr, shaped, genuine, ground arith)
  ]
]
