-- ===== src/Crawler/Registry.antt =====
-- internal/crawler/source.go and registry.go. A source's parsers rest on goquery, so they are fields
-- that the caller fills; the map is an association list, newest entry first.
use jobcrawler.Base.{String, List, [], ◌∷◌, str_eq, ◌⧺◌, quote, if◌then◌else◌}
use jobcrawler.World.Errors.{failure, Result, ok, err}
use jobcrawler.Domain.{JobSource}

pub record RawJob : Type 0 where
  pub title : String
  pub company : String
  pub location : String
  pub salary_text : String
  pub description : String
  pub url : String
  pub external_id : String
  pub published_at : String

pub record Source : Type 0 where
  pub name : JobSource
  pub parse_listing : String → Result (List String)
  pub parse_detail : String → Result RawJob

abbrev pub SourceRegistry : Type 0
SourceRegistry = List (JobSource × Source)

-- register: the entry under the source's name is replaced.
unfoldable pub register : SourceRegistry → Source → SourceRegistry
register r s = (s.name, s) ∷ r

-- NewRegistry, over the three crawlers.
unfoldable pub new_registry : Source → Source → Source → SourceRegistry
unfolding register
new_registry stepstone xing indeed = register (register (register [] stepstone) xing) indeed

unfoldable pub get_source : SourceRegistry → JobSource → Result Source
get_source [] source = err (failure ("no crawler registered for source " ⧺ quote source))
get_source ((name, s) ∷ r) source = if str_eq name source then ok s else get_source r source
