-- ===== src/Applications/Bound.antt =====
-- How long the history of an application can grow (app/applications.py).
use vitae.Applications.{is_event_of}
use vitae.Applications.History.{IsTold, IsChronicle, Chain}
use vitae.Applications.Requests.{answer_all-IsChronicle, answer_all, ApplicationRequest}
use vitae.Common.{
  true, ◌∷◌, length, All-mem, [], some, ◌<◌, ◌≡◌, List, ◌≤◌, Memᴰ, arith, ◌+◌, ℕ, select, none, suc,
}
use vitae.Lifecycle.{is_allowed, allowed, rank}
use vitae.Models.{Store}
use vitae.Models.AccountRows.{User, keyed_user}
use vitae.Models.ApplicationRows.{
  ApplicationStatus, Application, ApplicationEvent, keyed_application_event, keyed_application,
}

-- An allowed transition leads to a later status.
is_allowed-rank : (from to : ApplicationStatus) → is_allowed from to ≡ true → rank from < rank to
unfolding is_allowed allowed
is_allowed-rank from to h = ground arith

Chain-length :
    (from : ApplicationStatus) (es : List ApplicationEvent) (to : ApplicationStatus)
    → Chain (some from) es (some to)
    → length es + rank from ≤ rank to
unfolding Chain
Chain-length from [] to h = ground (arith, h)
Chain-length from (e ∷ es) to h =
    omega (arith, is_allowed-rank from e.to_status h.1, Chain-length e.to_status es to h.2)

-- Where every application's events form a chain from its creation to its status, whatever users
-- ask then, an application's history has at most one event more than the place of its status
-- among the eight, so at most eight.
pub history_bound :
    (qs : List (User × ApplicationRequest × ℕ)) (s : Store) (a : Application)
    → IsChronicle s
    → Memᴰ a (answer_all qs s).applications.rows
    → length (select (is_event_of a.id) (answer_all qs s).events.rows) ≤ suc (rank a.status)
unfolding IsChronicle IsTold Chain
history_bound qs s a h m =
    let told =
      All-mem (IsTold (answer_all qs s).applications.next_id (answer_all qs s).events.rows)
        (answer_all qs s).applications.rows (answer_all-IsChronicle qs s h).0 m in
    go (select (is_event_of a.id) (answer_all qs s).events.rows) told.1
  where
    go :
        (es : List ApplicationEvent)
        → Chain none es (some a.status)
        → length es ≤ suc (rank a.status)
    go [] c = omega arith
    go (e ∷ es) c = omega (arith, Chain-length e.to_status es a.status c.2)
