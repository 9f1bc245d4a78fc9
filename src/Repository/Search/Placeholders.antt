-- ===== src/Repository/Search/Placeholders.antt =====
-- The placeholders of the search query and its arguments (internal/repository/postgres/job_repo.go).
use jobcrawler.Base.{
  ℕ, zero, suc, ◌+◌, String, ◌≡◌, Bool, true, false, List, [], ◌∷◌, ◌++◌, map, length,
  length-append, length-map, arith, refl, ap, sym, ◌∙◌, ltb, subst,
}
use native.Mathlib.Nat.{add-zero, zero-add}
use mathlib.Core.List.{append_assoc, append-nil}
use jobcrawler.Domain.{JobSource, SearchFilter}
use jobcrawler.Repository.Search.{
  Arg, text, Piece, sql, placeholder, Builder, add_arg, source_pieces, add_sources, when, is_set,
  is_text, build_where,
}

-- The numbers of the placeholders, in the order of the text.
abbrev pub numbers : List Piece → List ℕ
numbers [] = []
numbers (sql s ∷ ps) = numbers ps
numbers (placeholder n ∷ ps) = n ∷ numbers ps

abbrev pub all_numbers : List (List Piece) → List ℕ
all_numbers [] = []
all_numbers (c ∷ cs) = numbers c ++ all_numbers cs

-- from, from + 1, …, `n` numbers
abbrev pub range : ℕ → ℕ → List ℕ
range from zero = []
range from (suc n) = from ∷ range (from + 1) n

-- Placeholder k stands for argument k: they are numbered from 1 as they come, one for each argument.
pub record IsNumbered (b : Builder) : Type 0 where
  pub next : b.arg_idx ≡ length b.args + 1
  pub numbered : all_numbers b.conditions ≡ range 1 (length b.args)

range-append : (from m n : ℕ) → range from m ++ range (from + m) n ≡ range from (m + n)
range-append from zero n = rw (add-zero, zero-add)
range-append from (suc m) n =
    let start : from + suc m ≡ from + 1 + m = omega arith in
    let total : suc m + n ≡ suc (m + n) = omega arith in
    rw (start, total) (ap (λ (t : List ℕ). from ∷ t) (range-append (from + 1) m n))

all_numbers-append :
    (cs ds : List (List Piece)) → all_numbers (cs ++ ds) ≡ all_numbers cs ++ all_numbers ds
all_numbers-append [] ds = refl
all_numbers-append (c ∷ cs) ds =
    ap (λ (t : List ℕ). numbers c ++ t) (all_numbers-append cs ds)
    ∙ sym (append_assoc (numbers c) (all_numbers cs) (all_numbers ds))

numbers-append : (ps qs : List Piece) → numbers (ps ++ qs) ≡ numbers ps ++ numbers qs
numbers-append [] qs = refl
numbers-append (sql s ∷ ps) qs = numbers-append ps qs
numbers-append (placeholder n ∷ ps) qs = ap (λ (t : List ℕ). n ∷ t) (numbers-append ps qs)

range_next : (m n : ℕ) → range 1 m ++ range (m + 1) n ≡ range 1 (m + n)
range_next m n = let next : m + 1 ≡ 1 + m = omega arith in rw next (range-append 1 m n)

-- A condition whose placeholders continue the numbering keeps it.
append-IsNumbered :
    (b : Builder) (c : List Piece) (vs : List Arg)
    → IsNumbered b
    → numbers c ≡ range b.arg_idx (length vs)
    → IsNumbered (record {
      conditions = b.conditions ++ c ∷ [];
      args = b.args ++ vs;
      arg_idx = b.arg_idx + length vs;
    })
append-IsNumbered b c vs h e = record {
  next = omega (arith, h.next, length-append b.args vs);
  numbered =
      rw (length-append, all_numbers-append, append-nil, h.numbered, e, h.next)
        (range_next (length b.args) (length vs));
}

add_arg-IsNumbered :
    (before after : String) (v : Arg) (b : Builder)
    → IsNumbered b
    → IsNumbered (add_arg before after v b)
unfolding add_arg
add_arg-IsNumbered before after v b h =
    append-IsNumbered b (sql before ∷ placeholder b.arg_idx ∷ sql after ∷ []) (v ∷ []) h refl

numbers-source_pieces :
    (idx : ℕ) (sources : List JobSource)
    → numbers (source_pieces idx sources) ≡ range idx (length sources)
unfolding source_pieces
numbers-source_pieces idx [] = refl
numbers-source_pieces idx (s ∷ []) = refl
numbers-source_pieces idx (s ∷ t ∷ ts) =
    ap (λ (ns : List ℕ). idx ∷ ns) (numbers-source_pieces (idx + 1) (t ∷ ts))

add_sources-IsNumbered :
    (sources : List JobSource) (b : Builder) → IsNumbered b → IsNumbered (add_sources sources b)
unfolding add_sources
add_sources-IsNumbered sources b h =
    let c = sql "source IN (" ∷ (source_pieces b.arg_idx sources ++ sql ")" ∷ []) in
    subst
      (λ n. IsNumbered (record {
        conditions = b.conditions ++ c ∷ [];
        args = b.args ++ map text sources;
        arg_idx = b.arg_idx + n;
      }))
      (length-map text sources)
      (append-IsNumbered b c (map text sources) h
        (rw (numbers-append, append-nil, length-map) (numbers-source_pieces b.arg_idx sources)))

when-IsNumbered :
    (c : Bool) (f : Builder → Builder) (b : Builder)
    → ((x : Builder) → IsNumbered x → IsNumbered (f x))
    → IsNumbered b
    → IsNumbered (when c f b)
when-IsNumbered true f b k h = k b h
when-IsNumbered false f b k h = h

-- Whatever the filter, the placeholders of the WHERE clause are $1, $2, … in the order of the text,
-- one for each argument, and the next two numbers are free for LIMIT and OFFSET.
pub build_where-IsNumbered : (f : SearchFilter) → IsNumbered (build_where f)
unfolding build_where
build_where-IsNumbered f = when-IsNumbered (is_set f.tags) _ _ (add_arg-IsNumbered _ _ _) (
    when-IsNumbered (is_set f.sources) _ _ (add_sources-IsNumbered _) (
      when-IsNumbered (ltb 0 f.salary_min) _ _ (add_arg-IsNumbered _ _ _) (
        when-IsNumbered (is_text f.remote) _ _ (add_arg-IsNumbered _ _ _) (
          when-IsNumbered (is_text f.location) _ _ (add_arg-IsNumbered _ _ _) (
            when-IsNumbered (is_text f.query) _ _ (add_arg-IsNumbered _ _ _)
              (record { next = omega arith; numbered = refl }))))))
