-- ===== src/Applications/Chronicle.antt =====
-- Every operation of app/applications.py keeps the history of every application whole.
use vitae.Applications.{
  with_details, owned_application, transition_application, Details, moved_to, log, mark_overlay,
}
use vitae.Applications.History.{IsChronicle, moved-IsTold, kept-IsTold, IsTold}
use vitae.Common.{
  some, ◌≡◌, String, Option-cases, Bool-cases, ℕ, inl, inr, arith, none, ◌<◌, ◌⊎◌, ◌∷◌, true, refl,
  All-append, if◌then◌else◌, [], subst,
}
use vitae.Common.Outcome.{>>=-eq-ok, ok, value_error, raised}
use vitae.Common.Table.{get, Table, id_of-get_row, All-get_row, save}
use vitae.Common.Text.{strip, lower}
use vitae.Lifecycle.{is_allowed, status_of, same_status}
use vitae.Models.{Store}
use vitae.Models.AccountRows.{User, keyed_user}
use vitae.Models.ApplicationRows.{
  Application, keyed_application, ApplicationStatus, ApplicationEvent, keyed_application_event,
}

pub owned_application-get :
    (user : User) (i : ℕ) (t : Table Application) {row : Application}
    → owned_application user i t ≡ ok row
    → (get row.id t ≡ some row) × (row.id ≡ i) × (row.user_id ≡ user.id)
unfolding owned_application
owned_application-get user i t {row} h = elim (Option-cases (get i t)) [
  | inl e ↦ absurd (ground arith)
  | inr (q, e) ↦
      let found : q ≡ row = ground arith in
      let id : row.id ≡ i = ground (arith, found, id_of-get_row i t.rows {a = q} e) in
      (ground (arith, e, found, id), id, ground arith)
]

abbrev event_of : ℕ → ApplicationStatus → ApplicationStatus → String → ℕ → ApplicationEvent
event_of i from to note e = record {
  id = e;
  application_id = i;
  from_status = some from;
  to_status = to;
  note = note;
}

-- the store after a transition request that was accepted
abbrev pub stayed : Application → Store → Store
stayed after s = record s { applications = save after s.applications }

abbrev pub moved :
    Application → ApplicationStatus → Application → ApplicationStatus → String → Store → Store
moved row from after target note s = record s {
  applications = save after s.applications;
  user_jobs = mark_overlay target row s.user_jobs;
  events = log row.id (some from) target note s.events;
}

pub transition_cases :
    (row : Application) (to_status : String) (d : Details) (now : ℕ) (s : Store)
    {r : Store × Application}
    → (elim (status_of (lower (strip to_status))) [
      | none ↦ raised value_error
      | some target ↦
          if same_status target row.status
          then ok (stayed (with_details d row) s, with_details d row)
          else if is_allowed row.status target
          then ok (
            moved row row.status (moved_to target now (with_details d row)) target (strip d.note) s,
            moved_to target now (with_details d row),
          )
          else raised value_error
    ])
      ≡ ok r
    → (stayed (with_details d row) s ≡ r.0)
      ⊎ ((target : ApplicationStatus) × (is_allowed row.status target ≡ true)
          × (moved row row.status (moved_to target now (with_details d row)) target (strip d.note) s
              ≡ r.0))
transition_cases row to_status d now s {r} h =
    elim (Option-cases (status_of (lower (strip to_status)))) [
      | inl e ↦ absurd (ground arith)
      | inr (target, e) ↦ elim (Bool-cases (same_status target row.status)) [
        | inl f ↦ inl (ground arith)
        | inr f ↦ elim (Bool-cases (is_allowed row.status target)) [
          | inr g ↦ absurd (ground arith)
          | inl g ↦ inr (target, g, ground arith)
        ]
      ]
    ]

pub transition_application-IsChronicle :
    (user : User) (i : ℕ) (to_status : String) (d : Details) (now : ℕ) (s : Store)
    {r : Store × Application}
    → transition_application user i to_status d now s ≡ ok r
    → IsChronicle s
    → IsChronicle r.0
unfolding transition_application IsChronicle IsTold
transition_application-IsChronicle user i to_status d now s {r} h told =
    let (row, found, h1) = >>=-eq-ok (owned_application user i s.applications) _ h in
    let (there, id, mine) = owned_application-get user i s.applications {row = row} found in
    elim (transition_cases row to_status d now s {r = r} h1) [
      | inl e ↦ subst IsChronicle e (
        kept-IsTold s.applications.next_id s.events.rows s.applications.rows row
            (with_details d row) there refl refl told.0,
        told.1,
      )
      | inr (target, legal, e) ↦
          let entry = event_of row.id row.status target (strip d.note) s.events.next_id in
          subst IsChronicle e (
            moved-IsTold s.applications.next_id s.events.rows s.applications.rows row
                (moved_to target now (with_details d row)) entry there refl refl refl legal refl
                told.0,
            All-append (λ x. x.application_id < s.applications.next_id) s.events.rows (entry ∷ [])
                told.1
                (
                  (All-get_row (IsTold s.applications.next_id s.events.rows) row.id
                      s.applications.rows {a = row} told.0 there).0,
                  tt,
                ),
          )
    ]
