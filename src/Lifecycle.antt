-- ===== src/Lifecycle.antt =====
-- The statuses of an application and the moves between them (app/applications.py).
use vitae.Common.{
  Bool, str_eq, is_some, ◌==◌, Option, ◌∷◌, if◌then◌else◌, some, String, [], ℕ, none, List,
  find_first,
}
use vitae.Models.ApplicationRows.{
  draft, ready, submitted, screening, interview, offer, rejected, withdrawn, ApplicationStatus,
}

-- the status that a text names: `target in {item.value for item in ApplicationStatus}`
unfoldable pub status_of : String → Option ApplicationStatus
status_of s =
    if str_eq s "draft"
    then some draft
    else if str_eq s "ready"
    then some ready
    else if str_eq s "submitted"
    then some submitted
    else if str_eq s "screening"
    then some screening
    else if str_eq s "interview"
    then some interview
    else if str_eq s "offer"
    then some offer
    else if str_eq s "rejected"
    then some rejected
    else if str_eq s "withdrawn"
    then some withdrawn
    else none

-- the place of a status in the list of statuses
abbrev pub rank : ApplicationStatus → ℕ
rank draft = 0
rank ready = 1
rank submitted = 2
rank screening = 3
rank interview = 4
rank offer = 5
rank rejected = 6
rank withdrawn = 7

abbrev pub same_status : ApplicationStatus → ApplicationStatus → Bool
same_status s t = rank s == rank t

-- `_ALLOWED_TRANSITIONS`
unfoldable pub allowed : ApplicationStatus → List ApplicationStatus
allowed draft = ready ∷ submitted ∷ withdrawn ∷ []
allowed ready = submitted ∷ withdrawn ∷ []
allowed submitted = screening ∷ interview ∷ offer ∷ rejected ∷ withdrawn ∷ []
allowed screening = interview ∷ offer ∷ rejected ∷ withdrawn ∷ []
allowed interview = offer ∷ rejected ∷ withdrawn ∷ []
allowed offer = rejected ∷ withdrawn ∷ []
allowed rejected = []
allowed withdrawn = []

unfoldable pub is_allowed : ApplicationStatus → ApplicationStatus → Bool
unfolding allowed
is_allowed s t = is_some (find_first (same_status t) (allowed s))
