-- ===== src/Execute.antt =====
-- src/simplecc/lsp/client.rs: `execute_code_lens`, `execute_code_action` and the send under the cache lock.
-- A function takes the cache as it finds it first, and a record of what happens around it: the
-- events that reach the cache at each `await`, newest first, and what the server answers.
pub mod Lens
pub mod Action
pub mod LensSafety
pub mod ActionSafety
pub mod Requests
pub mod Offers
pub mod Tests
use simplecc.Base.{ℕ, String, Bool, true, false, Option, none, some, List, ◌++◌, not, if◌then◌else◌}
use simplecc.Json.{Json}
use simplecc.Edit.{Range, LspWorkspaceEdit, WorkspaceEdit}
use simplecc.Cache.{IdentityCache, CacheError, matches}

pub record Command : Type 0 where
  pub title : String
  pub command : String
  pub arguments : Option (List Json)

pub data Failure : Type 0 where
  refused_by_cache : CacheError → Failure
  not_running resolve_failed changed_while_resolving changed_before_execution : Failure
  write_failed reply_failed changed_during_execution : Failure

pub data Outcome : Type 0 where
  returned : Option WorkspaceEdit → Outcome
  failed : Failure → Outcome

-- What a call leaves behind: its result, the command that went to the server, and whether the
-- client was marked dead.
pub record Run : Type 0 where
  pub outcome : Outcome
  pub written : Option Command
  pub marked_dead : Bool

-- The reply to `workspace/executeCommand`: an error, or a result that may read as an edit.
pub data Reply : Type 0 where
  no_reply : Reply
  replied : Option LspWorkspaceEdit → Reply

-- The state of the transport when a command is to be written.
pub record Wire : Type 0 where
  pub alive : Bool
  pub accepts : Bool

abbrev pub stop : Failure → Run
stop f = record { outcome = failed f; written = none; marked_dead = false }

abbrev after_reply : Reply → (Option LspWorkspaceEdit → Outcome) → Outcome
after_reply no_reply k = failed reply_failed
after_reply (replied e) k = k e

-- `request_with_timeout_inner` with an identity, and in it `send_execution_message`: `alive` joins
-- its two tests, and `k` is what the caller makes of the reply. A failed write counts as no write.
unfoldable pub send_execution {ℓ} :
    {A : Type ℓ}
    → IdentityCache A
    → ℕ
    → String
    → Wire
    → Command
    → Reply
    → (Option LspWorkspaceEdit → Outcome)
    → Run
unfolding matches
send_execution c g u w cmd r k =
    if not w.alive
    then stop not_running
    else if not (matches c g u)
    then stop changed_before_execution
    else if not w.accepts
    then record { outcome = failed write_failed; written = none; marked_dead = true }
    else record { outcome = after_reply r k; written = some cmd; marked_dead = false }
