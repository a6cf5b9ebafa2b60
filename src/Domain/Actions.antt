-- ===== src/Domain/Actions.antt =====
-- Actions on the store that may throw. What was written before a throw stays written, so the store
-- comes back beside the error too; a database transaction is an action that puts the store back.
use brigadir.Prelude.{
  ◌≡◌, refl, ◌+◌, length, if◌then◌else◌, ap, Bool-cases, inl, inr, true, arith, List, String,
  Option, ℕ, Bool, none, some, [], ◌∷◌, ◌++◌, any_where, suc, update_where,
}
use brigadir.Domain.Tables.{
  World, Run, Agent, agent_keys_ok, Payload, HumanTask, Ticket, Job, JiraWrite, transition,
  insert_run, update_runs,
}

pub data Failure : Type 0 where
  -- SQLSTATE 23505
  unique_violation : Failure
  invalid_timestamp workspace_not_found : Failure
  -- SQLSTATE 23502
  not_null_violation : Failure
  invalid_report run_not_found agent_not_found executor_not_found : Failure
  -- Jira
  no_transition_path jira_error : Failure

pub data Result {ℓ} (A : Type ℓ) : Type ℓ where
  ok : A → Result A
  throws : Failure → Result A

abbrev pub Io : Type 0 → Type 0
Io A = World → Result A × World

module _ {A : Type 0} where
  abbrev pub pure : A → Io A
  pure a w = (ok a, w)

  abbrev pub throw : Failure → Io A
  throw e w = (throws e, w)

  abbrev pub gets : (World → A) → Io A
  gets f w = (ok (f w), w)

module _ {A B : Type 0} where
  infixl 5 ◌>>=◌ ◌>>◌
  abbrev pub ◌>>=◌ : Io A → (A → Io B) → Io B
  ◌>>=◌ m f w = let (r, w') = m w in elim r [ ok a ↦ f a w' | throws e ↦ (throws e, w') ]

  abbrev pub ◌>>◌ : Io A → Io B → Io B
  m >> k = m >>= λ _. k

abbrev pub modify : (World → World) → Io Unit
modify f w = (ok tt, f w)

-- `insert into run_events`.
abbrev pub add_event : ℕ → Payload → Io Unit
add_event i p =
    modify (λ w. record w { run_events = w.run_events ++ record { run_id = i; payload = p } ∷ [] })

-- `update runs set f where p returning id`: whether a row was updated.
abbrev pub guarded_update : (Run → Bool) → (Run → Run) → Io Bool
guarded_update p f w = elim (update_runs p f w.runs) [
  | none ↦ (throws unique_violation, w)
  | some rows ↦ (ok (any_where p w.runs), record w { runs = rows })
]

-- `gen_random_uuid()`.
abbrev pub fresh_id : World → ℕ
fresh_id w = w.uuids w.drawn

abbrev pub update_tickets : (Ticket → Bool) → (Ticket → Ticket) → Io Unit
update_tickets p f = modify (λ w. record w { tickets = update_where p f w.tickets })

abbrev pub update_tasks : (HumanTask → Bool) → (HumanTask → HumanTask) → Io Unit
update_tasks p f = modify (λ w. record w { human_tasks = update_where p f w.human_tasks })

-- `queue.add`.
abbrev pub add_job : Job → Io Unit
add_job j = modify (λ w. record w { jobs = w.jobs ++ j ∷ [] })

abbrev pub add_task : HumanTask → Io Unit
add_task t = modify (λ w. record w { human_tasks = w.human_tasks ++ t ∷ []; drawn = suc w.drawn })

abbrev pub add_ticket : Ticket → Io Unit
add_ticket t = modify (λ w. record w { tickets = w.tickets ++ t ∷ []; drawn = suc w.drawn })

abbrev pub add_jira : JiraWrite → Io Unit
add_jira j = modify (λ w. record w { jira = w.jira ++ j ∷ [] })

-- `insert into runs`, with a fresh identifier that is returned.
unfoldable pub add_run : (ℕ → Run) → Io ℕ
add_run r w = elim (insert_run (r (fresh_id w)) w.runs) [
  | none ↦ (throws unique_violation, w)
  | some rows ↦ (ok (fresh_id w), record w { runs = rows; drawn = suc w.drawn })
]

-- `db.transaction`: a throw puts the store back.
abbrev pub transaction : {A : Type 0} → Io A → Io A
transaction m w = let (r, w') = m w in elim r [ ok a ↦ (ok a, w') | throws e ↦ (throws e, w) ]

-- Rows with the next identifiers.
unfoldable pub with_ids : (ℕ → ℕ) → ℕ → List (ℕ → Agent) → List Agent
with_ids uuids n [] = []
with_ids uuids n (r ∷ rows) = r (uuids n) ∷ with_ids uuids (suc n) rows

-- `insert into agents` of several rows, one statement.
unfoldable pub insert_agents : List (ℕ → Agent) → Io Unit
insert_agents rows w =
    let agents = w.agents ++ with_ids w.uuids w.drawn rows in
    if agent_keys_ok agents
    then (ok tt, record w { agents = agents; drawn = w.drawn + length rows })
    else (throws unique_violation, w)

-- The Jira client of a workspace: whether a transition or a comment fails, in a given store. What
-- Jira itself does is not modelled; the writes that it accepts are recorded in order.
pub record JiraClient : Type 0 where
  pub transition_fails : World → String → String → Option Failure
  pub comment_fails : World → String → Option Failure

abbrev attempt : Option Failure → JiraWrite → Io Unit
attempt none write w = add_jira write w
attempt (some e) write w = throw e w

abbrev pub transition_to : JiraClient → String → String → Io Unit
transition_to jira key status w =
    attempt (jira.transition_fails w key status) (transition key status) w

abbrev pub add_comment : JiraClient → String → JiraWrite → Io Unit
add_comment jira key write w = attempt (jira.comment_fails w key) write w

-- `try { … } catch { log }`.
abbrev pub non_fatal : Io Unit → Io Unit
non_fatal m w = (ok tt, (m w).1)

-- `for (const x of xs) await f(x)`: an error ends the loop.
unfoldable pub for_each : {A : Type 0} → (A → Io Unit) → List A → Io Unit
for_each f [] = pure tt
for_each f (x ∷ xs) = f x >> for_each f xs

-- What the first action establishes and the second keeps holds after both, also if the first throws.
pub bind-keeps :
    {A B : Type 0} (P : World → Type 0) (m : Io A) (k : A → Io B) (w : World)
    → P (m w).1
    → ((a : A) (v : World) → P v → P (k a v).1)
    → P ((m >>= k) w).1
bind-keeps {A} {B} P m k w p keeps = go (m w).0 (m w).1 p
  where
    go :
        (r : Result A) (v : World)
        → P v
        → P (elim r as (λ _. Result B × World) [ ok a ↦ k a v | throws e ↦ (throws e, v) ]).1
    go (ok a) v p = keeps a v p
    go (throws e) v p = p

-- After an action whose result is known, the next one runs in the store that it left.
pub bind-ok :
    {A B : Type 0} (m : Io A) (k : A → Io B) (w : World) {a : A} {v : World}
    → m w ≡ (ok a, v)
    → (m >>= k) w ≡ k a v
bind-ok {A} {B} m k w e =
    ap {B = Result B × World}
      (λ (x : Result A × World). elim x.0 as (λ _. Result B × World) [
        | ok a ↦ k a x.1
        | throws e ↦ (throws e, x.1)
      ])
      e

-- A loop whose errors are caught ends well.
pub for_each-ok :
    {A : Type 0} (f : A → Io Unit) (xs : List A) (v : World)
    → (for_each (λ a. non_fatal (f a)) xs v).0 ≡ ok tt
unfolding for_each
for_each-ok f [] v = refl
for_each-ok f (x ∷ xs) v = for_each-ok f xs (f x v).1

-- A loop whose errors are caught keeps what each turn keeps.
pub for_each-keeps :
    {A : Type 0} (P : World → Type 0) (f : A → Io Unit)
    → ((a : A) (v : World) → P v → P (f a v).1)
    → (xs : List A) (v : World) → P v
    → P (for_each (λ a. non_fatal (f a)) xs v).1
unfolding for_each
for_each-keeps P f keeps [] v p = p
for_each-keeps P f keeps (x ∷ xs) v p = for_each-keeps P f keeps xs (f x v).1 (keeps x v p)

-- It comes to what one turn establishes and every turn keeps.
pub for_each-reaches :
    {A : Type 0} (P Q : World → Type 0) (q : A → Bool) (f : A → Io Unit)
    → ((a : A) (v : World) → P v → P (f a v).1)
    → ((a : A) (v : World) → Q v → Q (f a v).1)
    → ((a : A) (v : World) → q a ≡ true → P v → Q (f a v).1)
    → (xs : List A) (v : World) → any_where q xs ≡ true
    → P v
    → Q (for_each (λ a. non_fatal (f a)) xs v).1
unfolding for_each
for_each-reaches P Q q f keeps_p keeps_q hit [] v e p = absurd (ground (arith, e))
for_each-reaches P Q q f keeps_p keeps_q hit (x ∷ xs) v e p = elim (Bool-cases (q x)) [
  | inl h ↦ for_each-keeps Q f keeps_q xs (f x v).1 (hit x v h p)
  | inr n ↦
      for_each-reaches P Q q f keeps_p keeps_q hit xs (f x v).1 (ground (arith, e, n))
        (keeps_p x v p)
]
