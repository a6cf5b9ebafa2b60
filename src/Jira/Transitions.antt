-- ===== src/Jira/Transitions.antt =====
-- libs/jira/src/transition-discovery.ts: how a ticket is moved to a status by its name.
--
-- Jira is a parameter: what it tells about an issue and its transitions, and what it answers when a
-- transition is posted. The clock stands still during a call.
pub mod Posts
use brigadir.Prelude.{
  ℕ, String, Bool, true, false, Option, none, some, List, [], ◌∷◌, ◌++◌, ◌+◌, ltb, str_eq,
  find_where, if◌then◌else◌,
}

pub record JiraTransition : Type 0 where
  pub id : String
  pub to : String

pub record Context : Type 0 where
  -- project, issue type and current status
  pub cache_key : String
  pub current_status : String

pub data Posted : Type 0 where
  posted_ok conflicting refused : Posted

-- The calls of one issue's `TransitionPort`, by how many transitions were posted before.
pub record TransitionPort : Type 0 where
  pub context : Option Context
  pub list : ℕ → Option (List JiraTransition)
  pub post : ℕ → String → Posted
  pub to_lower_case : String → String

pub record Cached : Type 0 where
  pub key : String
  pub transitions : List JiraTransition
  pub expires_at : ℕ

pub data Moved : Type 0 where
  already_there moved no_transition_path http_error : Moved

-- How a call ends, the transitions that it posted, and the cache after it.
pub record Discovery : Type 0 where
  pub result : Moved
  pub posts : List JiraTransition
  pub cache : List Cached

abbrev pub still_fresh : String → ℕ → Cached → Bool
still_fresh key now c = if str_eq c.key key then ltb now c.expires_at else false

abbrev pub hit : Option Cached → Option (List JiraTransition)
hit none = none
hit (some c) = some c.transitions

-- `Map.set` and `Map.delete`: the last entry of a key is the first here.
abbrev pub without : String → List Cached → List Cached
without key [] = []
without key (c ∷ cache) = if str_eq c.key key then without key cache else c ∷ without key cache

module _ (port : TransitionPort) (ttl now : ℕ) (target : String) where
  abbrev pub names_target : JiraTransition → Bool
  names_target t = str_eq (port.to_lower_case t.to) (port.to_lower_case target)

  abbrev pub remember : String → List JiraTransition → List Cached → List Cached
  remember key ts cache =
      record { key = key; transitions = ts; expires_at = now + ttl } ∷ without key cache

  abbrev ended_with : Moved → List JiraTransition → List Cached → Discovery
  ended_with result posts cache = record { result = result; posts = posts; cache = cache }

  abbrev pub answer_of : Posted → Moved
  answer_of posted_ok = moved
  answer_of _ = http_error

  -- The retry, after the first transition was out of date.
  abbrev pub again : JiraTransition → List Cached → Option JiraTransition → Discovery
  again first cache none = ended_with no_transition_path (first ∷ []) cache
  again first cache (some t) = ended_with (answer_of (port.post 1 t.id)) (first ∷ t ∷ []) cache

  abbrev pub rediscover :
      String → JiraTransition → List Cached → Option (List JiraTransition) → Discovery
  rediscover key first cache none = ended_with http_error (first ∷ []) cache
  rediscover key first cache (some ts) =
      again first (remember key ts cache) (find_where names_target ts)

  abbrev pub after_post : String → JiraTransition → List Cached → Posted → Discovery
  after_post key t cache posted_ok = ended_with moved (t ∷ []) cache
  after_post key t cache refused = ended_with http_error (t ∷ []) cache
  after_post key t cache conflicting = rediscover key t (without key cache) (port.list 1)

  abbrev pub with_match : String → List Cached → Option JiraTransition → Discovery
  with_match key cache none = ended_with no_transition_path [] cache
  with_match key cache (some t) = after_post key t cache (port.post 0 t.id)

  abbrev pub listed : String → List Cached → Option (List JiraTransition) → Discovery
  listed key cache none = ended_with http_error [] cache
  listed key cache (some ts) = with_match key (remember key ts cache) (find_where names_target ts)

  abbrev pub loaded : String → List Cached → Option (List JiraTransition) → Discovery
  loaded key cache (some ts) = with_match key cache (find_where names_target ts)
  loaded key cache none = listed key cache (port.list 0)

  abbrev pub in_context : List Cached → Option Context → Discovery
  in_context cache none = ended_with http_error [] cache
  in_context cache (some c) =
      if str_eq (port.to_lower_case c.current_status) (port.to_lower_case target)
      then ended_with already_there [] cache
      else loaded c.cache_key cache (hit (find_where (still_fresh c.cache_key now) cache))

  unfoldable pub discover_transition : List Cached → Discovery
  discover_transition cache = in_context cache port.context
