-- ===== src/Processor/Normalizer/Keywords.antt =====
-- ExtractTags of internal/processor/normalizer.go. The order in which Go walks over a map is an
-- argument.
pub mod Found
use Prim.Native.Char.{Char}
use jobcrawler.Base.{
  String, Bool, Option, none, some, List, [], ◌∷◌, map, ◌⧺◌, contains, map_chars, if◌then◌else◌,
}
use jobcrawler.Crawler.Sources.Listing.{collect}

abbrev pub tech_keywords : List String
tech_keywords =
    "golang" ∷ "python" ∷ "java" ∷ "javascript" ∷ "typescript" ∷ "rust" ∷ "c++" ∷ "c#" ∷ "ruby"
    ∷ "scala" ∷ "kotlin" ∷ "swift" ∷ "php" ∷ "r" ∷ "spring" ∷ "django" ∷ "fastapi" ∷ "flask"
    ∷ "express" ∷ "nestjs" ∷ "gin" ∷ "fiber" ∷ "echo" ∷ "react" ∷ "vue" ∷ "angular" ∷ "svelte"
    ∷ "nextjs" ∷ "nuxt" ∷ "postgresql" ∷ "mysql" ∷ "mongodb" ∷ "redis" ∷ "elasticsearch"
    ∷ "cassandra" ∷ "clickhouse" ∷ "sqlite" ∷ "dynamodb" ∷ "neo4j" ∷ "aws" ∷ "azure" ∷ "gcp"
    ∷ "kubernetes" ∷ "docker" ∷ "terraform" ∷ "ansible" ∷ "helm" ∷ "argocd" ∷ "jenkins"
    ∷ "github actions" ∷ "kafka" ∷ "spark" ∷ "airflow" ∷ "dbt" ∷ "hadoop" ∷ "flink" ∷ "tensorflow"
    ∷ "pytorch" ∷ "pandas" ∷ "scikit-learn" ∷ "graphql" ∷ "grpc" ∷ "rest" ∷ "microservices"
    ∷ "linux" ∷ []

-- A keyword that stands in the text.
abbrev pub keep_found : String → Option String → Option String
keep_found combined none = none
keep_found combined (some kw) = if contains combined kw then some kw else none

-- The keys of `seen`.
unfoldable pub found_keywords : String → List String
unfolding collect
found_keywords combined = collect (keep_found combined) [] (map some tech_keywords)

module _ (lower : Char → Char) where
  abbrev pub combined_text : String → String → String
  combined_text title description = map_chars lower (title ⧺ (" " ⧺ description))

  unfoldable pub extract_tags : (List String → List String) → String → String → List String
  unfolding found_keywords
  extract_tags map_order title description =
      map_order (found_keywords (combined_text title description))
