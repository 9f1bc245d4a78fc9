-- ===== src/Repository/Search.antt =====
-- internal/repository/postgres/job_repo.go, Search: the WHERE clause with its numbered placeholders,
-- the page, and the sort order. A condition is kept as the pieces of its text; `render` joins them
-- as the source's Sprintf does. Upper case is taken character by character.
pub mod Placeholders
pub mod Paging
use Prim.Native.Char.{Char, code}
use Prim.Native.String.{[], ◌∷◌}
use jobcrawler.Base.{
  ℕ, ℤ, pos, negsuc, zero, suc, ◌+◌, ◌-◌, ◌*◌, ◌%◌, ◌^◌, String, Bool, true, false, ◌||◌, ◌&&◌,
  Option, none, some, List, ◌++◌, ltb, ◌==◌, str_eq, if◌then◌else◌, ◌⧺◌, join, decimal, map,
  map_chars, length,
}
use jobcrawler.Base.Words.{wrap64}
use jobcrawler.Domain.{SearchFilter, JobSource}

-- A parameter of a query.
pub data Arg : Type 0 where
  text : String → Arg
  number : ℕ → Arg
  signed : ℤ → Arg
  texts : List String → Arg

-- A piece of SQL, or the placeholder `$n`.
pub data Piece : Type 0 where
  sql : String → Piece
  placeholder : ℕ → Piece

abbrev pub piece_text : Piece → String
piece_text (sql s) = s
piece_text (placeholder n) = "$" ⧺ decimal n

unfoldable pub render : List Piece → String
render ps = join "" (map piece_text ps)

-- `conditions`, `args` and `argIdx`; the conditions in order.
pub record Builder : Type 0 where
  pub conditions : List (List Piece)
  pub args : List Arg
  pub arg_idx : ℕ

abbrev pub empty_builder : Builder
empty_builder = record { conditions = List.[]; args = List.[]; arg_idx = 1 }

-- addArg, with the text around the verb `$%d`.
unfoldable pub add_arg : String → String → Arg → Builder → Builder
add_arg before after value b = record {
  conditions =
      b.conditions
      ++ (List.◌∷◌
          (List.◌∷◌ (sql before) (List.◌∷◌ (placeholder b.arg_idx) (List.◌∷◌ (sql after) List.[])))
          List.[]);
  args = b.args ++ (List.◌∷◌ value List.[]);
  arg_idx = b.arg_idx + 1;
}

-- The loop over the sources: their placeholders, separated by commas.
unfoldable pub source_pieces : ℕ → List JobSource → List Piece
source_pieces idx List.[] = List.[]
source_pieces idx (List.◌∷◌ s List.[]) = List.◌∷◌ (placeholder idx) List.[]
source_pieces idx (List.◌∷◌ s (List.◌∷◌ t ts)) =
    List.◌∷◌ (placeholder idx) (List.◌∷◌ (sql ",") (source_pieces (idx + 1) (List.◌∷◌ t ts)))

unfoldable pub add_sources : List JobSource → Builder → Builder
unfolding source_pieces
add_sources sources b = record {
  conditions =
      b.conditions
      ++ (List.◌∷◌
          (List.◌∷◌ (sql "source IN (")
            (source_pieces b.arg_idx sources ++ (List.◌∷◌ (sql ")") List.[])))
          List.[]);
  args = b.args ++ map text sources;
  arg_idx = b.arg_idx + length sources;
}

abbrev pub when : Bool → (Builder → Builder) → Builder → Builder
when true f b = f b
when false f b = b

abbrev pub is_set : {A : Type 0} → List A → Bool
is_set List.[] = false
is_set (List.◌∷◌ _ _) = true

abbrev pub is_text : String → Bool
is_text s = if str_eq s "" then false else true

-- The six filters, in the order of the source.
unfoldable pub build_where : SearchFilter → Builder
unfolding add_arg add_sources
build_where f =
    let b1 =
      when (is_text f.query)
        (add_arg
          "(to_tsvector('german', title || ' ' || COALESCE(description,'')) @@ plainto_tsquery('german', "
          "))" (text f.query))
        empty_builder in
    let b2 =
      when (is_text f.location)
        (add_arg "location_city ILIKE " "" (text ("%" ⧺ (f.location ⧺ "%")))) b1 in
    let b3 = when (is_text f.remote) (add_arg "remote_type = " "" (text f.remote)) b2 in
    let b4 = when (ltb 0 f.salary_min) (add_arg "salary_min >= " "" (number f.salary_min)) b3 in
    let b5 = when (is_set f.sources) (add_sources f.sources) b4 in
    when (is_set f.tags) (add_arg "tags @> " "" (texts f.tags)) b5

-- `where`
unfoldable pub where_text : Builder → String
unfolding render
where_text b = if is_set b.conditions then "WHERE " ⧺ join " AND " (map render b.conditions) else ""

unfoldable pub clamp_page : ℕ → ℕ
clamp_page page = if ltb page 1 then 1 else page

unfoldable pub clamp_per_page : ℕ → ℕ
clamp_per_page per_page =
    let lower = if ltb per_page 1 then 25 else per_page in if ltb 100 lower then 100 else lower

-- offset := (page - 1) * perPage
unfoldable pub page_offset : ℕ → ℕ → ℤ
unfolding clamp_page clamp_per_page wrap64
page_offset page per_page = wrap64 ((clamp_page page - 1) * clamp_per_page per_page)

-- strings.SplitN(s, ":", 2): the part before the first colon, and the rest if there is one.
unfoldable pub split_colon : String → String × Option String
split_colon [] = ("", none)
split_colon (c ∷ s) =
    let (first, rest) = split_colon s in if code c == b':' then ("", some s) else (c ∷ first, rest)

unfoldable pub is_allowed_column : String → Bool
is_allowed_column col =
    str_eq col "published_at"
    || (str_eq col "created_at" || (str_eq col "salary_min" || str_eq col "title"))

module _ (upper : Char → Char) where
  abbrev pub direction : Option String → String
  direction none = "DESC"
  direction (some d) = if str_eq (map_chars upper d) "ASC" then "ASC" else "DESC"

  -- orderBy
  unfoldable pub order_by : String → String
  unfolding is_allowed_column
  order_by sort =
      if str_eq sort ""
      then "published_at DESC"
      else let (col, dir) = split_colon sort in
        if is_allowed_column col then col ⧺ (" " ⧺ direction dir) else "published_at DESC"

  -- The count query and the data query, with their arguments.
  unfoldable pub count_query : SearchFilter → String × List Arg
  count_query f = let b = build_where f in ("SELECT COUNT(*) FROM jobs " ⧺ where_text b, b.args)

  abbrev pub columns_text : String
  columns_text =
      "id, external_id, source, title, company_name, company_website, location_city, location_country, remote_type, salary_min, salary_max, salary_currency, description, tags, url, fingerprint, published_at, expires_at, created_at, updated_at"

  unfoldable pub data_query : SearchFilter → String × List Arg
  data_query f =
      let b = build_where f in
      (
        "SELECT "
            ⧺ (columns_text
                ⧺ (" FROM jobs "
                    ⧺ (where_text b
                        ⧺ (" ORDER BY "
                            ⧺ (order_by f.sort
                                ⧺ (" LIMIT $"
                                    ⧺ (decimal b.arg_idx
                                        ⧺ (" OFFSET $" ⧺ decimal (b.arg_idx + 1))))))))),
        b.args
            ++ (List.◌∷◌ (number (clamp_per_page f.per_page))
                (List.◌∷◌ (signed (page_offset f.page f.per_page)) List.[])),
      )
