-- ===== src/Pipeline/Gate/Laws.antt =====
-- What the dependency gate decides.
use brigadir.Prelude.{
  String, Bool, true, ◌||◌, Option, none, some, List, [], ◌∷◌, ◌≡◌, ◌↔◌, refl, arith, every,
  all_where, All, Bool-cases, inl, inr, eq_iff, str_eq,
}
use brigadir.Domain.{
  JiraIssue, JiraIssueLink, JiraLinkedIssueRef, StatusCategoryKey, done, TextMethods,
}
use brigadir.Pipeline.Gate.{
  clear, blocker_of, wanted, reached, link_gates, blocking_links, evaluate_dependency_gate, early,
  normalize, early_links, early_release_blockers, verdict, is_done, ref_of,
}

module _ (text : TextMethods) where
  -- A link lets its ticket start: it is of another kind, or points outward, or its blocker is done, or
  -- the blocker's status is the configured one, which is not blank, up to case and surrounding space.
  pub data LetsStart (release : Option String) (link : JiraIssueLink) : Type 0 where
    other_kind : ¬ (text.to_lower_case link.inward ≡ "is blocked by") → LetsStart release link
    outward : link.inward_issue ≡ none → LetsStart release link
    blocker_done :
        (b : JiraLinkedIssueRef)
        → link.inward_issue ≡ some b
        → b.status.category ≡ done
        → LetsStart release link
    at_status :
        (b : JiraLinkedIssueRef) (s : String)
        → link.inward_issue ≡ some b
        → release ≡ some s
        → ¬ (text.to_lower_case (text.trim s) ≡ "")
        → text.to_lower_case (text.trim b.status.name) ≡ text.to_lower_case (text.trim s)
        → LetsStart release link

  -- The same test, as the gate makes it.
  abbrev pub satisfied : Option String → JiraIssueLink → Bool
  satisfied release link = elim (blocker_of text link) [
    | none ↦ true
    | some b ↦ is_done b.status.category || reached text (wanted text release) b.status
  ]

  clear_iff_list :
      (release : Option String) (links : List JiraIssueLink)
      → (verdict text
            (all_where (λ link. link_gates text (wanted text release) (blocker_of text link)) links)
          ≡ clear)
        ↔ (every (satisfied release) links ≡ true)
  clear_iff_list release [] = (λ h. refl, λ h. refl)
  clear_iff_list release (link ∷ links) = (
    λ h. ground (arith, (clear_iff_list release links).0),
    λ h. ground (arith, (clear_iff_list release links).1),
  )

  gate-satisfied :
      (issue : JiraIssue) (release : Option String)
      → (evaluate_dependency_gate text issue release ≡ clear)
        ↔ (every (satisfied release) issue.issuelinks ≡ true)
  unfolding evaluate_dependency_gate blocking_links
  gate-satisfied issue release = clear_iff_list release issue.issuelinks

  category : (c : StatusCategoryKey) → is_done c ≡ true → c ≡ done
  category c h = ground arith

  reached-LetsStart :
      (release : Option String) (link : JiraIssueLink) (b : JiraLinkedIssueRef)
      → link.inward_issue ≡ some b
      → reached text (wanted text release) b.status ≡ true
      → LetsStart release link
  unfolding reached wanted normalize
  reached-LetsStart none link b e h = absurd (ground (arith, h))
  reached-LetsStart (some s) link b e h =
      let n : String = text.to_lower_case (text.trim s) in
      elim (Bool-cases (str_eq n "")) [
        | inl t ↦ absurd (ground (arith, t, h))
        | inr f ↦
            at_status b s e refl (λ q. absurd (ground (arith, f, (eq_iff n "").1 q)))
              ((eq_iff (text.to_lower_case (text.trim b.status.name)) n).0 (ground (arith, f, h)))
      ]

  satisfied-LetsStart :
      (release : Option String) (link : JiraIssueLink)
      → satisfied release link ≡ true
      → LetsStart release link
  unfolding blocker_of
  satisfied-LetsStart release link h =
      elim (Bool-cases (str_eq (text.to_lower_case link.inward) "is blocked by")) [
        | inr f ↦ other_kind (λ q.
            absurd
              (ground (arith, f, (eq_iff (text.to_lower_case link.inward) "is blocked by").1 q)))
        | inl t ↦ inward link.inward_issue refl t
      ]
    where
      inward :
          (o : Option JiraLinkedIssueRef)
          → link.inward_issue ≡ o
          → str_eq (text.to_lower_case link.inward) "is blocked by" ≡ true
          → LetsStart release link
      inward none e t = outward e
      inward (some b) e t = elim (Bool-cases (is_done b.status.category)) [
        | inl d ↦ blocker_done b e (category b.status.category d)
        | inr n ↦ reached-LetsStart release link b e (ground (arith, h, e, t, n))
      ]

  LetsStart-satisfied :
      (release : Option String) (link : JiraIssueLink)
      → LetsStart release link
      → satisfied release link ≡ true
  unfolding blocker_of reached wanted normalize
  LetsStart-satisfied release link (other_kind n) =
      elim (Bool-cases (str_eq (text.to_lower_case link.inward) "is blocked by")) [
        | inl t ↦ absurd (n ((eq_iff (text.to_lower_case link.inward) "is blocked by").0 t))
        | inr f ↦ ground (arith, f)
      ]
  LetsStart-satisfied release link (outward e) = ground (arith, e)
  LetsStart-satisfied release link (blocker_done b e d) = ground (arith, e, d)
  LetsStart-satisfied release link (at_status b s e r n same) =
      let wanted_name : String = text.to_lower_case (text.trim s) in
      let same' = (eq_iff (text.to_lower_case (text.trim b.status.name)) wanted_name).1 same in
      elim (Bool-cases (str_eq wanted_name "")) [
        | inl t ↦ absurd (n ((eq_iff wanted_name "").0 t))
        | inr f ↦ ground (arith, e, r, f, same')
      ]

  every_iff_All :
      (release : Option String) (links : List JiraIssueLink)
      → (every (satisfied release) links ≡ true) ↔ All (LetsStart release) links
  every_iff_All release [] = (λ h. _, λ h. refl)
  every_iff_All release (link ∷ links) = (
    λ h. (
      satisfied-LetsStart release link (ground (arith, h)),
      (every_iff_All release links).0 (ground (arith, h)),
    ),
    λ (l, ls).
        ground (arith, LetsStart-satisfied release link l, (every_iff_All release links).1 ls),
  )

  -- A ticket is clear exactly when each of its links is no "is blocked by" link, in any case of the
  -- letters, or points outward, or has a blocker that is done, or one whose status is the configured
  -- release status, which is not blank, up to case and surrounding space.
  pub gate-clear_iff :
      (issue : JiraIssue) (release : Option String)
      → (evaluate_dependency_gate text issue release ≡ clear)
        ↔ All (LetsStart release) issue.issuelinks
  gate-clear_iff issue release =
      let (there, back) = gate-satisfied issue release in
      let (all, each) = every_iff_All release issue.issuelinks in
      (λ h. all (there h), λ a. back (each a))

  -- A configured release status only ever releases more: what is clear without one is clear with it.
  plain_mono :
      (release : Option String) (links : List JiraIssueLink)
      → every (satisfied none) links ≡ true
      → every (satisfied release) links ≡ true
  unfolding wanted reached
  plain_mono release [] h = refl
  plain_mono release (link ∷ links) h = ground (arith, plain_mono release links)

  -- A configured release status never makes a clear ticket wait: a ticket that is clear by the rule
  -- "done only" is clear under every release status.
  pub release_status-releases_more :
      (issue : JiraIssue) (release : Option String)
      → evaluate_dependency_gate text issue none ≡ clear
      → evaluate_dependency_gate text issue release ≡ clear
  release_status-releases_more issue release h =
      (gate-satisfied issue release).1
        (plain_mono release issue.issuelinks ((gate-satisfied issue none).0 h))

  no_early-plain :
      (release : Option String) (links : List JiraIssueLink)
      → every (satisfied release) links ≡ true
      → ref_of text
          (all_where (λ link. early text (wanted text release) (blocker_of text link)) links)
        ≡ []
      → every (satisfied none) links ≡ true
  unfolding wanted reached blocker_of
  no_early-plain release [] c h = refl
  no_early-plain release (link ∷ links) c h = ground (arith, no_early-plain release links)

  plain-no_early :
      (release : Option String) (links : List JiraIssueLink)
      → every (satisfied none) links ≡ true
      → ref_of text
          (all_where (λ link. early text (wanted text release) (blocker_of text link)) links)
        ≡ []
  unfolding wanted reached blocker_of
  plain-no_early release [] h = refl
  plain-no_early release (link ∷ links) h = ground (arith, plain-no_early release links)

  -- For a ticket that the gate lets start, the timeline names no early blocker exactly when the
  -- ticket is clear by the rule "done only".
  pub early-explains :
      (issue : JiraIssue) (release : Option String)
      → evaluate_dependency_gate text issue release ≡ clear
      → (early_release_blockers text issue release ≡ [])
        ↔ (evaluate_dependency_gate text issue none ≡ clear)
  unfolding early_release_blockers early_links
  early-explains issue release c =
      let satisfied_all = (gate-satisfied issue release).0 c in
      (
        λ h.
            (gate-satisfied issue none).1 (no_early-plain release issue.issuelinks satisfied_all h),
        λ h. plain-no_early release issue.issuelinks ((gate-satisfied issue none).0 h),
      )
