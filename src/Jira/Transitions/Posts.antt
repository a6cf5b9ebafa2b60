-- ===== src/Jira/Transitions/Posts.antt =====
-- What a call posts to Jira.
use brigadir.Prelude.{
  ℕ, String, true, Option, none, some, List, [], ◌∷◌, ◌≡◌, refl, arith, All, find_where,
  find_where-some, length, ◌≤◌, str_eq, Bool, false, ◌↔◌, ◌∙◌, ap, Bool-cases, inl, inr,
}
use brigadir.Jira.Transitions.{
  JiraTransition, Context, Posted, posted_ok, conflicting, refused, TransitionPort, Cached,
  already_there, moved, Discovery, names_target, again, rediscover, after_post, with_match, listed,
  loaded, in_context, discover_transition, hit, still_fresh, remember, without,
}

module _ (port : TransitionPort) (ttl now : ℕ) (target : String) where
  -- What Jira answered to the last post.
  abbrev pub last_answer : List JiraTransition → Posted
  last_answer [] = refused
  last_answer (t ∷ []) = port.post 0 t.id
  last_answer (t ∷ u ∷ posts) = port.post 1 u.id

  -- Only transitions to the target are posted, twice at most, a move is one that Jira accepted, and the
  -- ticket was not found in the target status.
  abbrev Moving : Discovery → Type 0
  Moving o =
      All (λ t. names_target port ttl now target t ≡ true) o.posts
      × (length o.posts ≤ 2)
      × (o.result ≡ moved → last_answer o.posts ≡ posted_ok)
      × (o.result ≡ already_there → false ≡ true)

  -- Jira tells that the ticket is in the target status, in any case of the letters.
  abbrev pub in_target : Option Context → Bool
  in_target none = false
  in_target (some c) = str_eq (port.to_lower_case c.current_status) (port.to_lower_case target)

  -- The posts are lawful, the answer says that no move is needed exactly if the ticket is in the target
  -- status, and then nothing is posted.
  abbrev pub Lawful : Discovery → Type 0
  Lawful o =
      All (λ t. names_target port ttl now target t ≡ true) o.posts
      × (length o.posts ≤ 2)
      × (o.result ≡ moved → last_answer o.posts ≡ posted_ok)
      × ((o.result ≡ already_there) ↔ (in_target port.context ≡ true))
      × (o.result ≡ already_there → o.posts ≡ [])

  matching :
      (ts : List JiraTransition) (t : JiraTransition)
      → find_where (names_target port ttl now target) ts ≡ some t
      → names_target port ttl now target t ≡ true
  matching ts t e = (find_where-some (names_target port ttl now target) ts e).0

  again-Moving :
      (first : JiraTransition) (cache : List Cached) (o : Option JiraTransition)
      → names_target port ttl now target first ≡ true
      → ((t : JiraTransition) → o ≡ some t → names_target port ttl now target t ≡ true)
      → Moving (again port ttl now target first cache o)
  again-Moving first cache none h k =
      ((h, _), omega arith, λ e. absurd (ground (arith, e)), λ e. absurd (ground (arith, e)))
  again-Moving first cache (some t) h k =
      ((h, (k t refl, _)), omega arith, λ e. ground (arith, e), λ e. absurd (ground (arith, e)))

  after_post-Moving :
      (key : String) (t : JiraTransition) (cache : List Cached) (p : Posted)
      → port.post 0 t.id ≡ p
      → names_target port ttl now target t ≡ true
      → Moving (after_post port ttl now target key t cache p)
  after_post-Moving key t cache posted_ok q h =
      ((h, _), omega arith, λ e. q, λ e. absurd (ground (arith, e)))
  after_post-Moving key t cache refused q h =
      ((h, _), omega arith, λ e. absurd (ground (arith, e)), λ e. absurd (ground (arith, e)))
  after_post-Moving key t cache conflicting q h = listed_again (port.list 1)
    where
      listed_again :
          (l : Option (List JiraTransition))
          → Moving (rediscover port ttl now target key t (without key cache) l)
      listed_again none =
          ((h, _), omega arith, λ e. absurd (ground (arith, e)), λ e. absurd (ground (arith, e)))
      listed_again (some ts) =
          again-Moving t (remember port ttl now target key ts (without key cache))
            (find_where (names_target port ttl now target) ts) h (λ u e. matching ts u e)

  with_match-Moving :
      (key : String) (cache : List Cached) (o : Option JiraTransition)
      → ((t : JiraTransition) → o ≡ some t → names_target port ttl now target t ≡ true)
      → Moving (with_match port ttl now target key cache o)
  with_match-Moving key cache none k =
      (_, omega arith, λ e. absurd (ground (arith, e)), λ e. absurd (ground (arith, e)))
  with_match-Moving key cache (some t) k =
      after_post-Moving key t cache (port.post 0 t.id) refl (k t refl)

  loaded-Moving :
      (key : String) (cache : List Cached) (o : Option (List JiraTransition))
      → Moving (loaded port ttl now target key cache o)
  loaded-Moving key cache (some ts) =
      with_match-Moving key cache (find_where (names_target port ttl now target) ts)
        (λ t e. matching ts t e)
  loaded-Moving key cache none = first_list (port.list 0)
    where
      first_list :
          (l : Option (List JiraTransition)) → Moving (listed port ttl now target key cache l)
      first_list none =
          (_, omega arith, λ e. absurd (ground (arith, e)), λ e. absurd (ground (arith, e)))
      first_list (some ts) =
          with_match-Moving key (remember port ttl now target key ts cache)
            (find_where (names_target port ttl now target) ts) (λ t e. matching ts t e)

  Moving-Lawful : (o : Discovery) → in_target port.context ≡ false → Moving o → Lawful o
  Moving-Lawful o out (targets, few, accepted, move) = (
    targets,
    few,
    accepted,
    (λ e. absurd (ground (arith, move e)), λ e. absurd (ground (arith, out, e))),
    λ e. absurd (ground (arith, move e)),
  )

  -- Whatever the cache holds and Jira answers, a call posts at most two transitions, each to the target
  -- status, and it reports a move only if Jira accepted the last post. It reports that the ticket is there
  -- already exactly if Jira tells that the ticket is in the target status, in any case of the letters,
  -- and then it posts none.
  pub discover_transition-Lawful :
      (cache : List Cached) → Lawful (discover_transition port ttl now target cache)
  unfolding discover_transition
  discover_transition-Lawful cache = go port.context refl
    where
      go : (c : Option Context) → port.context ≡ c → Lawful (in_context port ttl now target cache c)
      go none e =
          Moving-Lawful (in_context port ttl now target cache none) (ap in_target e)
            (_, omega arith, λ q. absurd (ground (arith, q)), λ q. absurd (ground (arith, q)))
      go (some c) e = elim (Bool-cases (in_target (some c))) [
        | inl t ↦
            rw (t, in_target)
              (
                _,
                omega arith,
                λ q. absurd (ground (arith, q)),
                (λ q. ap in_target e ∙ t, λ q. refl),
                λ q. refl,
              )
        | inr n ↦ rw n (
            Moving-Lawful
              (loaded port ttl now target c.cache_key cache
                (hit (find_where (still_fresh c.cache_key now) cache)))
              (ap in_target e ∙ n)
              (loaded-Moving c.cache_key cache
                (hit (find_where (still_fresh c.cache_key now) cache))))
      ]
