-- ===== src/Access.antt =====
-- app/accounts/billing_access.py: who may open a listing, the free opens of a profile, which keys the
-- AI features use, and the region that prices are shown for.
pub mod Agree
pub mod Opens
pub mod Region
mod Examples
use vitae.Common.{
  ◌∷◌, not, member, false, [], ◌==◌, ℕ, ◌-◌, Option, leb, length, Bool, some, none, str_eq, String,
  ◌&&◌, List, if◌then◌else◌, true,
}
use vitae.Common.Sort.{sort_by}
use vitae.Common.Text.{or_text, strip, lower, is_empty, or_empty}
use vitae.Common.Texts.{mem_text}
use vitae.Models.AccountRows.{Profile, keyed_profile}
use vitae.Models.ListingRows.{JobListing, keyed_job_listing}

abbrev pub free_clear_matches : ℕ
free_clear_matches = 3

-- `can_open_listing`, once the listing was looked up
unfoldable pub can_open_listing : ℕ → Option JobListing → Bool × String
can_open_listing user_id none = (false, "Job not found")
can_open_listing user_id (some l) =
    let hers : Bool = elim l.owner_user_id [ none ↦ false | some o ↦ o == user_id ] in
    if str_eq l.visibility "private" && not hers
    then (false, "This listing is private.")
    else if not l.is_active && str_eq l.visibility "public"
    then (false, "This listing is no longer open.")
    else (true, "open")

-- the set of the listing ids that are stored, as a list without repetitions
unfoldable pub id_set : List ℕ → List ℕ
id_set [] = []
id_set (i ∷ is) = let rest = id_set is in if member i rest then rest else i ∷ rest

-- `free_unlocked_listing_ids` of the active profile
unfoldable pub free_unlocked_listing_ids : Profile → List ℕ
free_unlocked_listing_ids p = id_set p.free_unlocked

unfoldable pub free_opens_remaining : Profile → ℕ
free_opens_remaining p = free_clear_matches - length (free_unlocked_listing_ids p)

-- `claim_free_listing_open` for the active profile: the profile afterwards, and the answer
unfoldable pub claim_free_listing_open : ℕ → Profile → Profile × Bool
claim_free_listing_open listing_id p =
    let unlocked = free_unlocked_listing_ids p in
    if member listing_id unlocked
    then (p, true)
    else if leb free_clear_matches (length unlocked)
    then (p, false)
    else (record p { free_unlocked = sort_by leb (listing_id ∷ unlocked) }, true)

-- `can_use_ai`, of whether the user saved a key and whether the server has one
unfoldable pub can_use_ai : Bool → Bool → Bool × String
can_use_ai has_llm_keys platform_creds =
    if has_llm_keys
    then (true, "byok")
    else if platform_creds
    then (true, "platform")
    else (false, "Add an LLM API key in Settings, or configure platform keys on the server.")

-- the header under a name in small letters; of several the last one counts
unfoldable pub header : String → List (String × String) → Option String
header name [] = none
header name ((k, v) ∷ rest) = elim (header name rest) [
  | some w ↦ some w
  | none ↦ if str_eq (lower k) name then some v else none
]

-- the country that the edge names, stripped
unfoldable pub country_of : List (String × String) → String
country_of headers = strip (
    or_text (or_empty (header "cf-ipcountry" headers)) (
      or_text (or_empty (header "cloudfront-viewer-country" headers))
        (or_empty (header "x-vercel-ip-country" headers))))

-- the region and where it is from, by the country that the edge names; `upper` is `str.upper`
unfoldable pub region_of : (String → String) → Bool → String → String × String
region_of upper trust_edge_geo named =
    let country = upper named in
    let unknown = mem_text country ("XX" ∷ "T1" ∷ "A1" ∷ "A2" ∷ "O1" ∷ []) in
    if not trust_edge_geo
    then ("intl", "default")
    else if not (is_empty country) && not unknown
    then (if str_eq country "NG" then "ng" else "intl", "geo")
    else ("intl", "default")

-- `detect_billing_region_detail`
unfoldable pub detect_billing_region_detail :
    (String → String) → Bool → List (String × String) → List (String × String) → String × String
detect_billing_region_detail upper trust_edge_geo headers cookies =
    region_of upper trust_edge_geo (country_of headers)

-- `detect_billing_region`
unfoldable pub detect_billing_region :
    (String → String) → Bool → List (String × String) → List (String × String) → String
detect_billing_region upper trust_edge_geo headers cookies =
    (detect_billing_region_detail upper trust_edge_geo headers cookies).0
