-- ===== src/Tests/Requests.antt =====
-- The theorems of the HTTP client, of RetryDo and of the robots.txt check at sample data.
use jobcrawler.Base.{Option, none, some, [], ◌∷◌}
use jobcrawler.World.Errors.{ok, Err, failure}
use jobcrawler.World.{Response, Trace, Io, http_do}
use jobcrawler.Httputil.Robots.{Cache}

abbrev refusal : Response
refusal = record { status = 429; body = ok "<html>" }

-- An action that always fails, with one request.
abbrev failing : Io (Option Err)
failing tr = (some (failure "down"), http_do "u" ∷ tr)

abbrev running : Trace → Option Err
running tr = none

abbrev one_site : Cache
one_site = ("https://s.de", none) ∷ []
