-- ===== src/Httputil/Transport/Released.antt =====
-- The connections that chromeUTLSDialer of pkg/httputil/crawler_client.go leaves open, and the user
-- agents that randomUserAgent gives.
use mathlib.Core.List.{Memᴰ}
use jobcrawler.Base.{
  ℕ, zero, suc, ◌+◌, ◌<◌, String, ◌≡◌, ◌⊎◌, inl, inr, Bool, true, false, Option, none, some, List,
  [], ◌∷◌, get_elem?, length, count, str_eq, eq_iff, refl, arith, Bool-cases,
}
use jobcrawler.World.Errors.{Err, Result, ok, err}
use jobcrawler.Httputil.Transport.{
  Net, ConnEvent, raw_opened, raw_closed, client_closed, host_of, checked_protocol, shaken,
  dial_outcome, chrome_utls_dialer, random_user_agent,
}

abbrev pub is_opened : ConnEvent → Bool
is_opened raw_opened = true
is_opened raw_closed = false
is_opened client_closed = false

abbrev pub is_closed : ConnEvent → Bool
is_closed raw_opened = false
is_closed raw_closed = true
is_closed client_closed = true

-- One connection is left open by a success, to a server that speaks HTTP/2, and none by an error.
abbrev pub IsReleased : Net → Result String → List ConnEvent → Type 0
IsReleased net (ok host) events =
    (net.negotiated_protocol host ≡ "h2") × (count is_opened events ≡ count is_closed events + 1)
IsReleased net (err e) events = count is_opened events ≡ count is_closed events

module _ (net : Net) where
  checked_protocol-IsReleased :
      (host : String) → IsReleased net (checked_protocol net host).0 (checked_protocol net host).1
  checked_protocol-IsReleased host =
      elim (Bool-cases (str_eq (net.negotiated_protocol host) "h2")) [
        | inl same ↦ rw same ((eq_iff (net.negotiated_protocol host) "h2").0 same, refl)
        | inr other ↦ rw other refl
      ]

  shaken-IsReleased :
      (host : String) (r : Option Err) → IsReleased net (shaken net host r).0 (shaken net host r).1
  shaken-IsReleased host none = checked_protocol-IsReleased host
  shaken-IsReleased host (some e) = refl

  dial_outcome-IsReleased :
      (addr : String) (r : Option Err)
      → IsReleased net (dial_outcome net addr r).0 (dial_outcome net addr r).1
  dial_outcome-IsReleased addr none =
      let host = host_of addr (net.split_host_port addr) in
      shaken-IsReleased host (net.handshake host)
  dial_outcome-IsReleased addr (some e) = refl

  -- Whatever the network answers, the dialer closes the connection that it opened unless it returns it,
  -- and it returns none that did not negotiate HTTP/2.
  pub chrome_utls_dialer-IsReleased :
      (network addr : String)
      → IsReleased net
          (chrome_utls_dialer net network addr).0
          (chrome_utls_dialer net network addr).1
  unfolding chrome_utls_dialer
  chrome_utls_dialer-IsReleased network addr = dial_outcome-IsReleased addr (net.dial network addr)

get_elem?-Mem :
    (xs : List String) (i : ℕ)
    → i < length xs
    → (x : String) × (get_elem? xs i ≡ some x) × Memᴰ x xs
get_elem?-Mem [] i h = absurd (omega (arith, h))
get_elem?-Mem (x ∷ xs) zero h = (x, refl, Memᴰ.head refl)
get_elem?-Mem (x ∷ xs) (suc i) h =
    let (y, e, m) = get_elem?-Mem xs i (omega (arith, h)) in (y, e, Memᴰ.tail m)

-- With a random number below its bound, there is a user agent, one of those configured if there are any.
pub random_user_agent-Mem :
    (intn : ℕ → ℕ)
    → ((n : ℕ) → 0 < n → intn n < n)
    → (agents : List String)
    → (a : String) × (random_user_agent intn agents ≡ some a) × ((agents ≡ []) ⊎ Memᴰ a agents)
unfolding random_user_agent
random_user_agent-Mem intn bounded [] = (_, refl, inl refl)
random_user_agent-Mem intn bounded (b ∷ bs) =
    let (a, e, m) =
      get_elem?-Mem (b ∷ bs) (intn (length (b ∷ bs))) (bounded (length (b ∷ bs)) (omega arith)) in
    (a, e, inr m)
