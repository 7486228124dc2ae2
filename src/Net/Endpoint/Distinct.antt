-- ===== src/Net/Endpoint/Distinct.antt =====
-- The resolved endpoints.
use ketphone.Base.{
  ℕ, ◌≡◌, arith, Bool, false, List, [], ◌∷◌, ◌++◌, Option, none, some, Bytes, All, All-append,
  if_case, option_case, ◌||◌,
}
use ketphone.Net.Endpoint.{
  Endpoint, Sockaddr, Resolver, same_endpoint, has_endpoint, add_endpoint, collect, from_sockaddr,
  resolve_all,
}
use ketphone.Sip.Text.{to_string}

-- No endpoint comes again further on.
abbrev pub AreDistinct : List Endpoint → Type 0
AreDistinct [] = Unit
AreDistinct (e ∷ es) = All (λ f. same_endpoint e f ≡ false) es × AreDistinct es

add-AreDistinct :
    (e : Endpoint) (found : List Endpoint)
    → has_endpoint e found ≡ false
    → AreDistinct found
    → AreDistinct (found ++ e ∷ [])
unfolding has_endpoint
add-AreDistinct e [] h d = (tt, tt)
add-AreDistinct e (f ∷ fs) h d =
    let (new, rest) = neither (same_endpoint f e) (has_endpoint e fs) h in
    (
      All-append (λ g. same_endpoint f g ≡ false) fs (e ∷ []) d.0 (new, tt),
      add-AreDistinct e fs rest d.1,
    )
  where
    neither : (a b : Bool) → (a || b) ≡ false → (a ≡ false) × (b ≡ false)
    neither a b n = ground arith

add_endpoint-AreDistinct :
    (found : List Endpoint) (e : Option Endpoint)
    → AreDistinct found
    → AreDistinct (add_endpoint found e)
unfolding add_endpoint
add_endpoint-AreDistinct found none d = d
add_endpoint-AreDistinct found (some e) d =
    if_case AreDistinct (has_endpoint e found) (λ _. d) (λ new. add-AreDistinct e found new d)

collect-AreDistinct :
    (found : List Endpoint) (addresses : List (Sockaddr × ℕ))
    → AreDistinct found
    → AreDistinct (collect found addresses)
unfolding collect
collect-AreDistinct found [] d = d
collect-AreDistinct found ((raw, length) ∷ rest) d =
    collect-AreDistinct (add_endpoint found (from_sockaddr (some raw) length)) rest
      (add_endpoint-AreDistinct found (from_sockaddr (some raw) length) d)

-- Whatever the system's resolver answers, resolve_all gives no endpoint twice.
pub resolve_all-AreDistinct :
    (r : Resolver) (host : Bytes) (port : ℕ) → AreDistinct (resolve_all r host port)
unfolding resolve_all
resolve_all-AreDistinct r host port =
    option_case AreDistinct (r.getaddrinfo host (to_string port)) (λ _. tt)
      (λ addresses _. collect-AreDistinct [] addresses tt)
