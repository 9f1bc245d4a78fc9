-- ===== src/Tracing.antt =====
-- pkg/tracing/kafka.go: the headers of a Kafka message as the carrier of a trace context. The propagator
-- of OpenTelemetry, which reads and writes through the carrier, is not part of the model.
pub mod Carrier
use jobcrawler.Base.{String, Bool, true, false, List, [], ◌∷◌, map, str_eq, if◌then◌else◌}

abbrev pub Headers : Type 0
Headers = List (String × String)

-- Get
unfoldable pub get : Headers → String → String
get [] key = ""
get ((k, v) ∷ hs) key = if str_eq k key then v else get hs key

-- Set: the first header of the key is overwritten, or one is appended.
unfoldable pub set : Headers → String → String → Headers
set [] key value = (key, value) ∷ []
set ((k, v) ∷ hs) key value =
    let rest = set hs key value in if str_eq k key then (k, value) ∷ hs else (k, v) ∷ rest

-- Keys
abbrev pub keys : Headers → List String
keys hs = map (λ h. h.0) hs
