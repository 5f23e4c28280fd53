-- ===== src/Applications/History.antt =====
-- The history that the operations of app/applications.py write: each application's events lead, by
-- allowed moves, from its creation to its status.
use mathlib.Core.List.{append-nil}
use mathlib.Core.Path.{subst, sym, ◌∙◌}
use vitae.Applications.{is_event_of}
use vitae.Common.{
  true, sym, subst, ◌++◌, arith, select-append, ℕ, ◌∷◌, All, refl, ◌<◌, ◌≡◌, List, ◌∙◌, Option,
  select, none, [], some, ◌≢◌, All-map, All-append, suc, ap, select-none,
}
use vitae.Common.Table.{All-get_row, put_row, All-put_row_ne, get_row, All-put_row}
use vitae.Lifecycle.{is_allowed}
use vitae.Models.{Store}
use vitae.Models.ApplicationRows.{
  draft, ApplicationStatus, Application, ApplicationEvent, keyed_application_event,
  keyed_application,
}

-- a move that the history may hold: the creation, or an allowed transition
abbrev pub Legal : Option ApplicationStatus → ApplicationStatus → Type 0
Legal none to = to ≡ draft
Legal (some from) to = is_allowed from to ≡ true

-- events that start after status `from`, each from the status that the one before left, to status `to`
unfoldable pub Chain :
    Option ApplicationStatus → List ApplicationEvent → Option ApplicationStatus → Type 0
Chain from [] to = from ≡ to
Chain from (e ∷ es) to =
    (e.from_status ≡ from) × Legal from e.to_status × Chain (some e.to_status) es to

-- the application's events are a chain from its creation to its status
unfoldable pub IsTold : ℕ → List ApplicationEvent → Application → Type 0
unfolding Chain
IsTold next_id events a =
    (a.id < next_id) × Chain none (select (is_event_of a.id) events) (some a.status)

-- every application is told, and no event is of an application yet to be made
unfoldable pub IsChronicle : Store → Type 0
unfolding IsTold
IsChronicle s =
    All (IsTold s.applications.next_id s.events.rows) s.applications.rows
    × All (λ e. e.application_id < s.applications.next_id) s.events.rows

Chain-append :
    (from : Option ApplicationStatus) (es : List ApplicationEvent) (to : Option ApplicationStatus)
    (e : ApplicationEvent)
    → Chain from es to
    → e.from_status ≡ to
    → Legal to e.to_status
    → Chain from (es ++ e ∷ []) (some e.to_status)
unfolding Chain
Chain-append from [] to e h same legal =
    (same ∙ sym h, subst (λ x. Legal x e.to_status) (sym h) legal, refl)
Chain-append from (x ∷ es) to e h same legal =
    (h.0, h.1, Chain-append (some x.to_status) es to e h.2 same legal)

-- an event of another application leaves what is told of this one
IsTold-other :
    (n : ℕ) (es : List ApplicationEvent) (e : ApplicationEvent) (a : Application)
    → e.application_id ≢ a.id
    → IsTold n es a
    → IsTold n (es ++ e ∷ []) a
unfolding IsTold
IsTold-other n es e a ne h =
    let unread : select (is_event_of a.id) (es ++ e ∷ []) ≡ select (is_event_of a.id) es = ground (
      arith,
      select-append (is_event_of a.id) es (e ∷ []),
      append-nil (select (is_event_of a.id) es),
    ) in
    (h.0, subst (λ xs. Chain none xs (some a.status)) (sym unread) h.1)

-- an event of the application moves it on
IsTold-own :
    (n : ℕ) (es : List ApplicationEvent) (e : ApplicationEvent) (a after : Application)
    → e.application_id ≡ a.id
    → after.id ≡ a.id
    → e.from_status ≡ some a.status
    → is_allowed a.status e.to_status ≡ true
    → after.status ≡ e.to_status
    → IsTold n es a
    → IsTold n (es ++ e ∷ []) after
unfolding IsTold
IsTold-own n es e a after mine same from legal to h =
    let read : select (is_event_of after.id) (es ++ e ∷ [])
        ≡ select (is_event_of a.id) es ++ e ∷ [] =
      ground (arith, select-append (is_event_of a.id) es (e ∷ [])) in
    (
      ground (arith, h.0),
      subst (λ t. Chain none (select (is_event_of after.id) (es ++ e ∷ [])) (some t)) (sym to)
          (subst (λ xs. Chain none xs (some e.to_status)) (sym read)
            (Chain-append none (select (is_event_of a.id) es) (some a.status) e h.1 from legal)),
    )

IsTold-raise :
    (n : ℕ) (es : List ApplicationEvent) (a : Application) → IsTold n es a → IsTold (suc n) es a
unfolding IsTold
IsTold-raise n es a h = (omega (arith, h.0), h.1)

pub raise_events :
    (n : ℕ) (es : List ApplicationEvent)
    → All (λ e. e.application_id < n) es
    → All (λ e. e.application_id < suc n) es
raise_events n es h = All-map (λ e lt. omega (arith, lt)) es h

-- one application moved on, with the event of the move
module _ (n : ℕ) (es : List ApplicationEvent) (rows : List Application) where
  pub moved-IsTold :
      (row after : Application) (e : ApplicationEvent)
      → get_row row.id rows ≡ some row
      → e.application_id ≡ row.id
      → after.id ≡ row.id
      → e.from_status ≡ some row.status
      → is_allowed row.status e.to_status ≡ true
      → after.status ≡ e.to_status
      → All (IsTold n es) rows
      → All (IsTold n (es ++ e ∷ [])) (put_row after rows)
  moved-IsTold row after e there mine same from legal to told =
      All-put_row_ne (IsTold n (es ++ e ∷ [])) after rows
        (IsTold-own n es e row after mine same from legal to
          (All-get_row (IsTold n es) row.id rows {a = row} told there))
        (All-map (λ r t ne. IsTold-other n es e r (λ q. ne (ground (arith, q, mine, same))) t) rows
          told)

  -- an application whose id, status and events are as before
  pub kept-IsTold :
      (row after : Application)
      → get_row row.id rows ≡ some row
      → after.id ≡ row.id
      → after.status ≡ row.status
      → All (IsTold n es) rows
      → All (IsTold n es) (put_row after rows)
  unfolding IsTold
  kept-IsTold row after there same to told =
      let before = All-get_row (IsTold n es) row.id rows {a = row} told there in
      let read = ap (λ (j : ℕ). select (is_event_of j) es) same in
      All-put_row (IsTold n es) after rows
        (
          ground (arith, before.0),
          subst (λ xs. Chain none xs (some after.status)) (sym read)
              (subst (λ t. Chain none (select (is_event_of row.id) es) (some t)) (sym to) before.1),
        )
        told

  -- a new application with its first event
  pub added-IsTold :
      (a : Application) (e : ApplicationEvent)
      → a.id ≡ n
      → a.status ≡ draft
      → e.application_id ≡ n
      → e.from_status ≡ none
      → e.to_status ≡ draft
      → All (IsTold n es) rows
      → All (λ x. x.application_id < n) es
      → All (IsTold (suc n) (es ++ e ∷ [])) (rows ++ a ∷ [])
  unfolding IsTold Chain
  added-IsTold a e id status mine from to told before =
      let unread =
        select-none (is_event_of a.id) es (All-map (λ x lt. ground (arith, lt, id)) es before) in
      let read : select (is_event_of a.id) (es ++ e ∷ []) ≡ e ∷ [] =
        ground (arith, unread, select-append (is_event_of a.id) es (e ∷ [])) in
      All-append (IsTold (suc n) (es ++ e ∷ [])) rows (a ∷ [])
        (All-map
          (λ r t.
            IsTold-raise n (es ++ e ∷ []) r
              (IsTold-other n es e r (λ q. absurd (omega (arith, q, mine, t.0))) t))
          rows told)
        (
          (
            omega (arith, id),
            subst (λ xs. Chain none xs (some a.status)) (sym read)
                (from, to, ap some (to ∙ sym status)),
          ),
          tt,
        )
