-- ===== src/Sip/Digest.antt =====
-- src/sip/digest.cpp.
use ketphone.Base.{
  ℕ, zero, suc, Bool, true, false, not, ◌&&◌, ◌||◌, List, [], ◌∷◌, ◌++◌, Option, none, some, ltb,
  ◌==◌, if◌then◌else◌, length, take, drop, Bytes, codes, is_empty,
}
use ketphone.Sip.Text.{text_eq, find, cut, behind, trim, lowercase, iequals}
use ketphone.Sip.Md5.{md5_hex}
use ketphone.Sip.Random.{Randomness, random_hex}

pub record Challenge : Type 0 where
  pub realm : Bytes
  pub nonce : Bytes
  pub opaque : Bytes
  pub algorithm : Bytes
  pub qop_auth : Bool

pub record Credentials : Type 0 where
  pub username : Bytes
  pub password : Bytes

-- The parts joined by ':'; an empty part in front of the first non-empty one leaves no ':'.
join_onto : Bytes → List Bytes → Bytes
join_onto out [] = out
join_onto out (part ∷ parts) = join_onto (if is_empty out then part else out ++ (b':' ∷ part)) parts

join : List Bytes → Bytes
unfolding join_onto
join = join_onto []

-- `while (!value.empty() && value.front() == ',') value = trim(value.substr(1))`.
skip_commas : ℕ → Bytes → Bytes
skip_commas zero value = value
skip_commas (suc fuel) [] = []
skip_commas (suc fuel) (c ∷ cs) =
    let rest = skip_commas fuel (trim cs) in if c == b',' then rest else c ∷ cs

-- The loop of a quoted value, behind its opening quote: the text, and what is left behind the
-- closing quote.
quoted : Bytes → Bytes × Bytes
quoted [] = ([], [])
quoted (c ∷ []) = if c == b'"' then ([], []) else (c ∷ [], [])
quoted (c ∷ d ∷ cs) =
    let (plain, after_plain) = quoted (d ∷ cs) in
    let (escaped, after_escaped) = quoted cs in
    if c == b'"'
    then ([], d ∷ cs)
    else if c == b'\\'
    then (d ∷ escaped, after_escaped)
    else (c ∷ plain, after_plain)

abbrev from_place : Option ℕ → Bytes → Bytes
from_place none xs = []
from_place (some i) xs = drop i xs

-- The value behind '=', and what is left.
parameter_value : Bytes → Bytes × Bytes
unfolding quoted
parameter_value [] = ([], [])
parameter_value (c ∷ cs) =
    if c == b'"'
    then quoted cs
    else (trim (cut (find b',' (c ∷ cs)) (c ∷ cs)), from_place (find b',' (c ∷ cs)) (c ∷ cs))

-- The loop over a qop list: whether one of the options is "auth".
offers_auth : ℕ → Bytes → Bool
offers_auth zero options = false
offers_auth (suc fuel) [] = false
offers_auth (suc fuel) (c ∷ cs) =
    let comma = find b',' (c ∷ cs) in
    iequals (trim (cut comma (c ∷ cs))) (codes "auth") || offers_auth fuel (behind comma (c ∷ cs))

-- What a parameter changes, with the flag `has_nonce`.
apply_parameter : Bytes → Bytes → Challenge × Bool → Challenge × Bool
unfolding offers_auth
apply_parameter key parsed (c, has_nonce) =
    if text_eq key (codes "realm")
    then (record c { realm = parsed }, has_nonce)
    else if text_eq key (codes "nonce")
    then (record c { nonce = parsed }, true)
    else if text_eq key (codes "opaque")
    then (record c { opaque = parsed }, has_nonce)
    else if text_eq key (codes "algorithm")
    then (record c { algorithm = parsed }, has_nonce)
    else if text_eq key (codes "qop")
    then (record c { qop_auth = c.qop_auth || offers_auth (length parsed) parsed }, has_nonce)
    else (c, has_nonce)

-- The loop over the parameters. Each round takes at least the '=' away, so a round for each byte is
-- enough.
parameters : ℕ → Bytes → Challenge × Bool → Challenge × Bool
unfolding skip_commas parameter_value apply_parameter
parameters zero value state = state
parameters (suc fuel) value state =
    let start = skip_commas (length value) (trim value) in
    elim (find b'=' start) [
      | none ↦ state
      | some equals ↦
          let (parsed, rest) = parameter_value (trim (drop (suc equals) start)) in
          parameters fuel rest (apply_parameter (lowercase (trim (take equals start))) parsed state)
    ]

abbrev no_challenge : Challenge
no_challenge = record { realm = []; nonce = []; opaque = []; algorithm = []; qop_auth = false }

unfoldable pub parse_challenge : Bytes → Option Challenge
unfolding parameters
parse_challenge header_value =
    let value = trim header_value in
    let (challenge, has_nonce) = parameters (length value) (drop 6 value) (no_challenge, false) in
    if ltb (length value) 7 || not (iequals (take 6 value) (codes "Digest"))
    then none
    else if has_nonce
    then some challenge
    else none

unfoldable pub digest_response : Credentials → Challenge → Bytes → Bytes → Bytes → Bytes → Bytes
unfolding join
digest_response credentials challenge method uri nc cnonce =
    let ha1 = md5_hex (join (credentials.username ∷ challenge.realm ∷ credentials.password ∷ [])) in
    let ha2 = md5_hex (join (method ∷ uri ∷ [])) in
    if challenge.qop_auth
    then md5_hex (join (ha1 ∷ challenge.nonce ∷ nc ∷ cnonce ∷ codes "auth" ∷ ha2 ∷ []))
    else md5_hex (join (ha1 ∷ challenge.nonce ∷ ha2 ∷ []))

abbrev nonce_count : Bytes
nonce_count = codes "00000001"

-- `cnonce` is the fresh value, which is drawn only with qop.
value_with : Credentials → Challenge → Bytes → Bytes → Bytes → Bytes
unfolding digest_response
value_with credentials challenge method uri cnonce =
    codes "Digest username=\""
    ++ (credentials.username
        ++ (codes "\", realm=\""
            ++ (challenge.realm
                ++ (codes "\", nonce=\""
                    ++ (challenge.nonce
                        ++ (codes "\", uri=\""
                            ++ (uri
                                ++ (codes "\", response=\""
                                    ++ (digest_response credentials challenge method uri nonce_count
                                          cnonce
                                        ++ (codes "\", algorithm=MD5"
                                            ++ ((if challenge.qop_auth
                                                  then codes ", qop=auth, nc="
                                                    ++ (nonce_count
                                                        ++ (codes ", cnonce=\""
                                                            ++ (cnonce ++ codes "\"")))
                                                  else [])
                                                ++ (if is_empty challenge.opaque
                                                    then []
                                                    else codes ", opaque=\""
                                                      ++ (challenge.opaque
                                                          ++ codes "\"")))))))))))))

-- How many places of the generator a client nonce takes.
abbrev pub cnonce_draws : Challenge → ℕ
cnonce_draws challenge = if challenge.qop_auth then 8 else 0

unfoldable pub authorization_value :
    Randomness → ℕ → Credentials → Challenge → Bytes → Bytes → Option Bytes
unfolding value_with
authorization_value r at credentials challenge method uri =
    if not (is_empty challenge.algorithm) && not (iequals challenge.algorithm (codes "MD5"))
    then none
    else some (
        value_with credentials challenge method uri
          (if challenge.qop_auth then random_hex r at 8 else []))
