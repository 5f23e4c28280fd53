-- ===== src/Batches/Reviews.antt =====
-- No request on auto-apply batches lets an item past its review (app/auto_apply.py).
use vitae.Applications.{Details}
use vitae.AutoApply.{create_run}
use vitae.Batches.{
  pause_run, mark_item_review, start_run, cancel_run, approve_item, mark_item_submitted,
}
use vitae.Batches.Safe.{
  AllReviewed, mark_item_review-Safe, approve_item-Safe, create_run-Safe, start_run-Safe,
  pause_run-Safe, mark_item_submitted-Safe, cancel_run-Safe, Safe,
}
use vitae.Common.{[], ◌∷◌, Bool, List, ℕ, String, refl}
use vitae.Common.Outcome.{Outcome, ok, raised}
use vitae.Models.{Store}
use vitae.Models.AccountRows.{User, keyed_user}
use vitae.Models.ApplicationRows.{keyed_application}
use vitae.Models.AutoApplyRows.{keyed_auto_apply_run, keyed_auto_apply_item}

-- what a user asks of the batches
pub data BatchRequest : Type 0 where
  create_request :
      List ℕ → (max_applications : ℕ) → Bool → String → (made_up : String) → BatchRequest
  start_request : (run_id : ℕ) → BatchRequest
  pause_request : (run_id : ℕ) → BatchRequest
  cancel_request : (run_id : ℕ) → BatchRequest
  review_request : (item_id : ℕ) → String → BatchRequest
  approve_request : (item_id : ℕ) → BatchRequest
  submit_request : (item_id : ℕ) → Details → BatchRequest

-- the store of an answer; a request that raises is rolled back
abbrev commit {ℓ} : {A : Type ℓ} → Store → Outcome (Store × A) → Store
commit s (raised f) = s
commit s (ok r) = r.0

unfoldable pub serve : User → BatchRequest → ℕ → Store → Store
serve user (create_request ids most review key made_up) now s =
    commit s (create_run user ids most review key made_up now s)
serve user (start_request i) now s = commit s (start_run user i now s)
serve user (pause_request i) now s = commit s (pause_run user i s)
serve user (cancel_request i) now s = commit s (cancel_run user i now s)
serve user (review_request i reason) now s = commit s (mark_item_review user i reason s)
serve user (approve_request i) now s = commit s (approve_item user i s)
serve user (submit_request i d) now s = commit s (mark_item_submitted user i d now s)

-- users' requests, each at its time
pub serve_all : List (User × BatchRequest × ℕ) → Store → Store
serve_all [] s = s
serve_all (q ∷ qs) s = serve_all qs (serve q.0 q.1 q.2 s)

commit-AllReviewed {ℓ} :
    {A : Type ℓ} (s : Store) (o : Outcome (Store × A))
    → AllReviewed s
    → Safe o
    → AllReviewed (commit s o)
unfolding Safe
commit-AllReviewed s (raised f) h safe = h
commit-AllReviewed s (ok r) h safe = safe

-- Where every item under review asks for it and every ready item does not, they still do after any sequence of
-- requests on the batches, by whomever and with requests that fail.
pub serve_all-AllReviewed :
    (qs : List (User × BatchRequest × ℕ)) (s : Store) → AllReviewed s → AllReviewed (serve_all qs s)
unfolding serve_all serve
serve_all-AllReviewed [] s h = h
serve_all-AllReviewed (q ∷ qs) s h =
    serve_all-AllReviewed qs (serve q.0 q.1 q.2 s) (step q.0 q.1 q.2)
  where
    step : (user : User) (r : BatchRequest) (now : ℕ) → AllReviewed (serve user r now s)
    step user (create_request ids most review key made_up) now =
        commit-AllReviewed s _ h (create_run-Safe user ids most review key made_up now s _ refl h)
    step user (start_request i) now = commit-AllReviewed s _ h (start_run-Safe user i now s h)
    step user (pause_request i) now = commit-AllReviewed s _ h (pause_run-Safe user i s h)
    step user (cancel_request i) now = commit-AllReviewed s _ h (cancel_run-Safe user i now s h)
    step user (review_request i reason) now =
        commit-AllReviewed s _ h (mark_item_review-Safe user i reason s h)
    step user (approve_request i) now = commit-AllReviewed s _ h (approve_item-Safe user i s h)
    step user (submit_request i d) now =
        commit-AllReviewed s _ h (mark_item_submitted-Safe user i d now s h)
