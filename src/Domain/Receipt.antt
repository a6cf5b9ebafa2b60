-- ===== src/Domain/Receipt.antt =====
-- packages/contracts/src/verification-receipt.schema.ts: which checks passed at which commits.
--
-- The agent's role, which is copied beside its name, is left out. What the schema accepts and how a
-- name is cut to its length are parameters.
use brigadir.Prelude.{
  ℕ, zero, suc, String, Bool, true, false, ◌&&◌, Option, none, some, List, [], ◌∷◌, ◌==◌, ◌||◌,
  str_eq, length, any_where, every, Heads, lookup, if◌then◌else◌,
}
use brigadir.Domain.Report.{AgentReport, Outcome, Check, CheckStatus, pass}

pub record VerificationReceipt : Type 0 where
  pub run_id : ℕ
  pub agent_name : Option String
  pub outcome : Outcome
  pub recorded_at : ℕ
  pub gates : List String
  pub repos : Heads

pub record ReceiptRules : Type 0 where
  pub truncate_gate_name : String → String
  pub accepts : VerificationReceipt → Bool

abbrev pub max_gates : ℕ
max_gates = 10

abbrev pub has_passed : CheckStatus → Bool
has_passed pass = true
has_passed _ = false

-- A name that the loop passes over.
abbrev pub passed_over : CheckStatus → String → List String → Bool
passed_over status name seen =
    (if has_passed status then false else true) || (str_eq name "" || any_where (str_eq name) seen)

-- The loop over the checks, by the room that is left and the names that were seen.
unfoldable pub gates_from : (String → String) → ℕ → List String → List Check → List String
gates_from truncate zero seen checks = []
gates_from truncate (suc room) seen [] = []
gates_from truncate (suc room) seen (c ∷ checks) =
    elim (passed_over c.status (truncate c.name) seen) [
      | true ↦ gates_from truncate (suc room) seen checks
      | false ↦ truncate c.name ∷ gates_from truncate room (truncate c.name ∷ seen) checks
    ]

abbrev accepted : ReceiptRules → VerificationReceipt → Option VerificationReceipt
accepted rules receipt = if rules.accepts receipt then some receipt else none

abbrev receipt_of : ReceiptRules → VerificationReceipt → Option VerificationReceipt
receipt_of rules receipt = elim receipt.gates [ [] ↦ none | gate ∷ gates ↦ accepted rules receipt ]

unfoldable pub build_verification_receipt :
    ReceiptRules → AgentReport → Heads → ℕ → Option String → ℕ → Option VerificationReceipt
build_verification_receipt rules report [] run_id agent_name recorded_at = none
build_verification_receipt rules report (head ∷ heads) run_id agent_name recorded_at =
    receipt_of rules (record {
      run_id = run_id;
      agent_name = agent_name;
      outcome = report.outcome;
      recorded_at = recorded_at;
      gates = gates_from rules.truncate_gate_name max_gates [] report.checks;
      repos = head ∷ heads;
    })

abbrev pub same_sha : Option String → String → Bool
same_sha none sha = false
same_sha (some s) sha = str_eq s sha

abbrev covers : VerificationReceipt → Heads → Bool
covers receipt start_shas =
    length receipt.repos == length start_shas
    && every (λ m. same_sha (lookup m.0 receipt.repos) m.1) start_shas

abbrev matched : VerificationReceipt → Heads → Option VerificationReceipt
matched receipt [] = none
matched receipt (start ∷ starts) = if covers receipt (start ∷ starts) then some receipt else none

-- A stored value that the schema rejects is `none`.
unfoldable pub match_verification_receipt :
    ReceiptRules → Option VerificationReceipt → Heads → Option VerificationReceipt
match_verification_receipt rules none start_shas = none
match_verification_receipt rules (some receipt) start_shas =
    if rules.accepts receipt then matched receipt start_shas else none
