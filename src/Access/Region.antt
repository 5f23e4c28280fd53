-- ===== src/Access/Region.antt =====
-- The region of prices does not depend on what a client can write.
use vitae.Access.{
  header, country_of, detect_billing_region_detail, detect_billing_region, region_of,
}
use vitae.Common.{List, ap, false, arith, Bool, String, ◌≡◌, refl}

-- two lists of headers with the same edge headers
abbrev pub SameEdge : List (String × String) → List (String × String) → Type 0
SameEdge a b =
    (header "cf-ipcountry" a ≡ header "cf-ipcountry" b)
    × (header "cloudfront-viewer-country" a ≡ header "cloudfront-viewer-country" b)
    × (header "x-vercel-ip-country" a ≡ header "x-vercel-ip-country" b)

country_of-SameEdge : (a b : List (String × String)) → SameEdge a b → country_of a ≡ country_of b
unfolding country_of
country_of-SameEdge a b (cf, cloudfront, vercel) = ground (arith, cf, cloudfront, vercel)

-- The region is the same for two requests with the same country headers of the edge, whatever their
-- cookies and their other headers are; and without trust in the edge it is the international one.
pub detect_billing_region_lem :
    (upper : String → String) (trust : Bool) (a b cookies more : List (String × String))
    → SameEdge a b
    → (detect_billing_region upper trust a cookies ≡ detect_billing_region upper trust b more)
      × (detect_billing_region upper false a cookies ≡ "intl")
unfolding detect_billing_region detect_billing_region_detail region_of
detect_billing_region_lem upper trust a b cookies more same =
    (ap (λ country. (region_of upper trust country).0) (country_of-SameEdge a b same), refl)
