-- ===== src/Net/Checks.antt =====
-- The theorems on addresses and certificates at concrete inputs.
use ketphone.Base.{
  ◌≡◌, refl, arith, false, List, [], ◌∷◌, none, some, Bytes, codes, replicate, ◌++◌, length, All,
  is_empty,
}
use ketphone.Net.Endpoint.{
  Endpoint, Resolver, inet, Sockaddr, to_sockaddr, sockaddr_length, from_sockaddr, resolve_all,
}
use ketphone.Net.Endpoint.Distinct.{AreDistinct, resolve_all-AreDistinct}
use ketphone.Net.Endpoint.RoundTrip.{IsEndpoint, from_sockaddr-to_sockaddr}
use ketphone.Net.Pem.{pem_certificates, certificates_from}
use ketphone.Net.Pem.Certificates.{pem_certificates-filled, certificates_from_enough}
use ketphone.Sip.Base64.{base64_decode}
use ketphone.Sip.Text.{find_text}

abbrev some_endpoint : Endpoint
some_endpoint = record {
  family = inet;
  address = (10 ∷ 0 ∷ 0 ∷ 2 ∷ []) ++ replicate 12 0;
  scope_id = 0;
  port = 5060;
}

abbrev some_endpoint-IsEndpoint : IsEndpoint some_endpoint
some_endpoint-IsEndpoint = record {
  specified = λ e. absurd (ground (arith, e));
  filled = refl;
  short = λ _. refl;
  unscoped = λ _. refl;
  port_fits = omega arith;
  scope_fits = omega arith;
}

from_sockaddr-to_sockaddr_example :
    from_sockaddr (some (to_sockaddr some_endpoint)) (sockaddr_length some_endpoint)
    ≡ some some_endpoint
from_sockaddr-to_sockaddr_example = from_sockaddr-to_sockaddr some_endpoint some_endpoint-IsEndpoint

abbrev pbx_address : Sockaddr
pbx_address = 2 ∷ 0 ∷ 19 ∷ 196 ∷ 10 ∷ 0 ∷ 0 ∷ 2 ∷ replicate 8 0

pbx_endpoint : from_sockaddr (some pbx_address) 16 ≡ some some_endpoint
unfolding from_sockaddr
pbx_endpoint = refl

-- A resolver that names one address twice.
abbrev echoing : Resolver
echoing = record {
  inet_ntop = λ family address. none;
  getaddrinfo = λ host service. some ((pbx_address, 16) ∷ (pbx_address, 16) ∷ []);
}

resolve_all-AreDistinct_example : AreDistinct (resolve_all echoing (codes "pbx") 5060)
resolve_all-AreDistinct_example = resolve_all-AreDistinct echoing (codes "pbx") 5060

abbrev some_pem : Bytes
some_pem = codes "-----BEGIN CERTIFICATE-----\nAAEC\n-----END CERTIFICATE-----\n"

abbrev some_ders : List Bytes
some_ders = (0 ∷ 1 ∷ 2 ∷ []) ∷ []

some_certificates : pem_certificates some_pem ≡ some some_ders
unfolding pem_certificates base64_decode find_text
some_certificates = refl

pem_certificates-filled_example :
    (is_empty some_ders ≡ false) × All (λ (der : Bytes). is_empty der ≡ false) some_ders
pem_certificates-filled_example = pem_certificates-filled some_pem some_ders some_certificates

certificates_from_enough_example :
    certificates_from 80 some_pem ≡ certificates_from (length some_pem) some_pem
certificates_from_enough_example = certificates_from_enough 80 some_pem (omega arith)
