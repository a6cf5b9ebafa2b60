-- ===== src/Ingest/Poller/Diff.antt =====
-- That a status which was seen before starts nothing.
use brigadir.Prelude.{
  ℕ, String, Bool, Option, some, List, [], ◌∷◌, ◌≡◌, refl, ◌∙◌, arith, ap, All, All-find_where,
  All-update_where, find_where-update_where, find_where, update_where, str_eq, eq_iff, ◌==◌, ◌&&◌,
  if◌then◌else◌,
}
use brigadir.Domain.{
  World, Ticket, JiraIssue, TextMethods, pure, ◌>>=◌, ◌>>◌, non_fatal, update_tickets,
}
use brigadir.Pipeline.Candidates.{Board}
use brigadir.Pipeline.StatusChange.{by_poll}
use brigadir.Ingest.Poller.{
  Polled, PollPort, cached_issue, newest, upserted, upsert_ticket, after_upsert, on_new_status,
  process_issues,
}

abbrev pub is_of : ℕ → JiraIssue → Ticket → Bool
is_of workspace issue t = t.workspace_id == workspace && str_eq t.jira_key issue.key

abbrev pub ticket_of : ℕ → JiraIssue → World → Option Ticket
ticket_of workspace issue w = find_where (is_of workspace issue) w.tickets

-- Every ticket was last seen in the status that `seen` gives for its identifier.
abbrev pub Remembers : (ℕ → Option String) → World → Type 0
Remembers seen w = All (λ t. t.last_seen_status ≡ seen t.id) w.tickets

-- The issue has a ticket, and that was last seen in the issue's status.
abbrev pub IsSeen : (ℕ → Option String) → ℕ → World → Polled → Type 0
IsSeen seen workspace w x =
    (t : Ticket) × ((ticket_of workspace x.issue w ≡ some t)
      × (seen t.id ≡ some x.issue.status.name))

module _ (text : TextMethods) (board : Board) (port : PollPort) (workspace : ℕ) where
  abbrev cache_only : JiraIssue → ℕ → World → World
  cache_only issue i w = record w {
    tickets = update_where (λ t. t.id == i) (cached_issue text board port issue) w.tickets;
  }

  -- Processing such an issue writes its ticket's cache and no more.
  first_only :
      (x : Polled) (xs : List Polled) (latest : Option String) (w : World) (t : Ticket)
      → ticket_of workspace x.issue w ≡ some t
      → t.last_seen_status ≡ some x.issue.status.name
      → process_issues text board port workspace (x ∷ xs) latest w
        ≡ process_issues text board port workspace xs
            (newest text board port latest x.updated)
            (cache_only x.issue t.id w)
  unfolding process_issues upsert_ticket
  first_only x xs latest w t found last =
      let same = (eq_iff x.issue.status.name x.issue.status.name).1 refl in
      let issue = x.issue in
      let next =
        process_issues text board port workspace xs (newest text board port latest x.updated) in
      let after : ℕ × Option String → World = λ y. (after_upsert text board port issue y w).1 in
      ap
        (λ o.
          ((upserted text board port workspace issue o >>= after_upsert text board port issue)
              >> next)
            w)
        found
      ∙ (ap (λ o. next (after (t.id, o))) last
          ∙ ap
              (λ b.
                next
                  (non_fatal
                    ((if b then pure tt else on_new_status text board port by_poll issue t.id)
                      >> update_tickets (λ u. u.id == t.id) (cached_issue text board port issue))
                    w).1)
              same)

  IsSeen-kept :
      (seen : ℕ → Option String) (issue : JiraIssue) (i : ℕ) (w : World) (y : Polled)
      → IsSeen seen workspace w y
      → IsSeen seen workspace (cache_only issue i w) y
  IsSeen-kept seen issue i w y (t, (found, s)) =
      let f = cached_issue text board port issue in
      (
        (if t.id == i then f t else t),
        (
          find_where-update_where (is_of workspace y.issue) (λ u. u.id == i) f (λ u. refl) w.tickets
              found,
          ground (arith, s),
        ),
      )

  All-IsSeen-kept :
      (seen : ℕ → Option String) (issue : JiraIssue) (i : ℕ) (w : World) (ys : List Polled)
      → All (IsSeen seen workspace w) ys
      → All (IsSeen seen workspace (cache_only issue i w)) ys
  All-IsSeen-kept seen issue i w [] h = _
  All-IsSeen-kept seen issue i w (y ∷ ys) (h, hs) =
      (IsSeen-kept seen issue i w y h, All-IsSeen-kept seen issue i w ys hs)

  -- A pass over issues that all have a ticket, last seen in the status that they have, starts nothing: the
  -- store differs at most in its tickets, so no run, job, task, event or write to Jira is added. The
  -- tickets with one identifier were last seen in one status.
  pub seen_statuses-start_nothing :
      (seen : ℕ → Option String) (xs : List Polled) (latest : Option String) (w : World)
      → Remembers seen w
      → All (IsSeen seen workspace w) xs
      → let v = (process_issues text board port workspace xs latest w).1 in
        v ≡ record w { tickets = v.tickets }
  unfolding process_issues
  seen_statuses-start_nothing seen [] latest w m h = refl
  seen_statuses-start_nothing seen (x ∷ xs) latest w m ((t, (found, s)), hs) =
      let last =
        All-find_where (λ u. u.last_seen_status ≡ seen u.id) (is_of workspace x.issue) w.tickets m
          found in
      let u = cache_only x.issue t.id w in
      let kept : Remembers seen u =
        All-update_where (λ y. y.last_seen_status ≡ seen y.id) (λ y. y.id == t.id)
          (cached_issue text board port x.issue) (λ y e k. ground (arith, e, s)) w.tickets m in
      rw (first_only x xs latest w t found (last ∙ s)) (
        seen_statuses-start_nothing seen xs (newest text board port latest x.updated) u kept
          (All-IsSeen-kept seen x.issue t.id w xs hs))
