-- ===== src/Httputil/Transport.antt =====
-- The transport of pkg/httputil/crawler_client.go: chromeUTLSDialer, the choice of a user agent and the
-- limit of redirects. The calls of net and of utls, and the random number, are arguments.
pub mod Released
use jobcrawler.Base.{
  ℕ, String, Bool, true, false, Option, none, some, List, [], ◌∷◌, get_elem?, length, str_eq, leb,
  ◌⧺◌, if◌then◌else◌,
}
use jobcrawler.World.Errors.{Err, failure, wrap, Result, ok, err}

pub record Net : Type 0 where
  pub dial : String → String → Option Err
  pub split_host_port : String → Result (String × String)
  pub handshake : String → Option Err
  pub negotiated_protocol : String → String
  pub quote : String → String

-- What happens to connections, in order; closing the TLS connection closes the one below it.
pub data ConnEvent : Type 0 where
  raw_opened raw_closed client_closed : ConnEvent

abbrev pub host_of : String → Result (String × String) → String
host_of addr (err e) = addr
host_of addr (ok (host, port)) = host

module _ (net : Net) where
  -- After the handshake; the result is the name of the server.
  abbrev pub checked_protocol : String → Result String × List ConnEvent
  checked_protocol host =
      if str_eq (net.negotiated_protocol host) "h2" then (ok host, raw_opened ∷ []) else (
        err (
            failure (
              "server "
              ⧺ (host
                  ⧺ (" did not negotiate h2 (got "
                      ⧺ (net.quote (net.negotiated_protocol host) ⧺ ")"))))),
        raw_opened ∷ client_closed ∷ [],
      )

  abbrev pub shaken : String → Option Err → Result String × List ConnEvent
  shaken host (some e) =
      (err (wrap ("utls handshake " ⧺ (host ⧺ ": ")) e), raw_opened ∷ raw_closed ∷ [])
  shaken host none = checked_protocol host

  abbrev pub dial_outcome : String → Option Err → Result String × List ConnEvent
  dial_outcome addr (some e) = (err (wrap ("dial " ⧺ (addr ⧺ ": ")) e), [])
  dial_outcome addr none =
      let host = host_of addr (net.split_host_port addr) in shaken host (net.handshake host)

  -- chromeUTLSDialer
  unfoldable pub chrome_utls_dialer : String → String → Result String × List ConnEvent
  chrome_utls_dialer network addr = dial_outcome addr (net.dial network addr)

-- randomUserAgent; `none` where the index is out of range.
unfoldable pub random_user_agent : (ℕ → ℕ) → List String → Option String
random_user_agent intn [] = some "Mozilla/5.0 (compatible; JobCrawlerBot/1.0)"
random_user_agent intn (a ∷ rest) = get_elem? (a ∷ rest) (intn (length (a ∷ rest)))

-- CheckRedirect, by the number of requests made already.
abbrev pub check_redirect : ℕ → Option Err
check_redirect via = if leb 5 via then some (failure "too many redirects") else none
