-- ===== src/Daemon/Paths.antt =====
-- src/simplecc/simplecc_daemon.rs: which requests are answered, and the paths of their handlers.
use simplecc.Base.{
  ℕ, refl, String, Bool, true, false, not, Option, none, some, List, [], ◌∷◌, Result, ok, err, ◌==◌,
  string_key, if◌then◌else◌, ◌&&◌, ◌||◌,
}
use simplecc.Json.{Json, Items, nil, cons}
use simplecc.Daemon.Request.{
  Request, WatchedFileChange, did_change_watched_files, did_open, did_change, did_save, did_close,
  completion, hover, signature_help, workspace_symbol, document_highlight, inlay_hint, code_lens,
  pull_diagnostics, server_response,
}
use simplecc.Config.{Config}
use simplecc.Daemon.Handler.{Call, Handler}
use simplecc.Daemon.Answered.{
  Kind, never, always, unless_newer, Answered, for_each-Answered, ok_or_error-Answered,
  ok_or_skip-Answered,
}
use simplecc.Daemon.Documents.{handle_did_change_watched_files, for_filetype, respond}
use simplecc.Daemon.Lifecycle.{
  handle_julia_activate_environment, handle_julia_refresh_language_server, loaded, activate,
  refreshed, refresh, install_result,
}
use simplecc.Daemon.Lookups.{definition_found}
use simplecc.Daemon.Hierarchies.{read_item}
use simplecc.Daemon.Edits.{complete}
use simplecc.Daemon.FileRename.{
  handle_file_rename, FileRename, identity_of, push_found, will_renamed, did_renamed, rename_at,
  rename_each, rename_checked,
}

-- Documents and answers to servers have no reply; where the newest request wins, an older one may
-- have none, and diagnostics that have not changed have none.
abbrev pub reply_kind : Request → Kind
reply_kind (did_change_watched_files _ _) = never
reply_kind (did_open _ _ _ _ _) = never
reply_kind (did_change _ _ _ _ _) = never
reply_kind (did_save _ _ _) = never
reply_kind (did_close _ _) = never
reply_kind (completion _ _ _ _ _ _ _ _ _) = unless_newer
reply_kind (hover _ _ _ _ _) = unless_newer
reply_kind (signature_help _ _ _ _ _) = unless_newer
reply_kind (workspace_symbol _ _ _) = unless_newer
reply_kind (document_highlight _ _ _ _ _) = unless_newer
reply_kind (inlay_hint _ _ _ _ _) = unless_newer
reply_kind (code_lens _ _ _) = unless_newer
reply_kind (pull_diagnostics _ _ _) = unless_newer
reply_kind (server_response _ _ _ _) = never
reply_kind _ = always

pub loaded-Answered :
    (id : ℕ) (root : String) (remote : Bool) (py lsp : String) (result : Result Config)
    → Answered always id (loaded id root remote py lsp result)
loaded-Answered id root remote py lsp (err e) = (tt, refl, tt)
loaded-Answered id root true py lsp (ok config) =
    λ _ clients. for_each-Answered always id clients _ _ (λ _ _. (tt, refl, tt))
loaded-Answered id root false py lsp (ok config) =
    λ _ clients. for_each-Answered always id clients _ _ (λ _ _ _. (tt, refl, tt))

-- A refusal, or else a handler.
if-Answered :
    (id : ℕ) (b : Bool) (h k : Handler)
    → Answered always id h
    → Answered always id k
    → Answered always id (if b then h else k)
if-Answered id true h k first second = first
if-Answered id false h k first second = second

activate-Answered :
    (id : ℕ) (path : String) (found : Option ℕ) → Answered always id (activate id path found)
activate-Answered id path none = (tt, refl, tt)
activate-Answered id path (some c) =
    λ result. ok_or_error-Answered always id tt result _ (λ _ _. (tt, refl, tt))

pub activate_environment-Answered :
    (id : ℕ) (l path : String) → Answered always id (handle_julia_activate_environment id l path)
unfolding handle_julia_activate_environment
activate_environment-Answered id l path =
    if-Answered id (not (l == "julia")) _ _ (tt, refl, tt) (activate-Answered id path)

refreshed-Answered : (id : ℕ) (done : Bool) → Answered always id (refreshed id done)
refreshed-Answered id true = (tt, refl, tt)
refreshed-Answered id false = (tt, refl, tt)

refresh-Answered : (id : ℕ) (found : Option ℕ) → Answered always id (refresh id found)
refresh-Answered id none = (tt, refl, tt)
refresh-Answered id (some c) =
    λ result. ok_or_error-Answered always id tt result _ (refreshed-Answered id)

pub refresh_language_server-Answered :
    (id : ℕ) (l : String) → Answered always id (handle_julia_refresh_language_server id l)
unfolding handle_julia_refresh_language_server
refresh_language_server-Answered id l =
    if-Answered id (not (l == "julia")) _ _ (tt, refl, tt) (refresh-Answered id)

pub watched_files-Answered :
    (id : ℕ) (cs : List WatchedFileChange) → Answered never id (handle_did_change_watched_files cs)
unfolding handle_did_change_watched_files
watched_files-Answered id [] = tt
watched_files-Answered id (c ∷ cs) = λ clients. for_each-Answered never id clients _ _ tt

pub for_filetype-Answered :
    (id : ℕ) (ft : Option String) (c : Call) (h : Handler)
    → Answered never id h
    → Answered never id (for_filetype ft c h)
for_filetype-Answered id none c h answered = answered
for_filetype-Answered id (some ft) c h answered =
    λ clients. for_each-Answered never id clients c h answered

pub respond-Answered :
    (id : ℕ) (found : Option ℕ) (request result : Json)
    → Answered never id (respond found request result)
respond-Answered id none request result = tt
respond-Answered id (some c) request result = λ _. tt

pub complete-Answered :
    (id : ℕ) (uri : String) (line character max_items kind : ℕ) (trigger : String) (sorts : Bool)
    (found : Option ℕ)
    → Answered unless_newer id (complete id uri line character max_items kind trigger sorts found)
complete-Answered id uri line character max_items kind trigger sorts none = (tt, refl, tt)
complete-Answered id uri line character max_items kind trigger sorts (some c) =
    λ result. ok_or_skip-Answered id result _ (λ found. (tt, refl, tt))

pub definition-Answered :
    (id c : ℕ) (symbol : String) (locs : Items)
    → Answered always id (definition_found id c symbol locs)
definition-Answered id c String.[] nil = (tt, refl, tt)
definition-Answered id c (String.◌∷◌ x s) nil = λ fallback. (tt, refl, tt)
definition-Answered id c String.[] (cons l ls) = (tt, refl, tt)
definition-Answered id c (String.◌∷◌ x s) (cons l ls) = (tt, refl, tt)

pub read_item-Answered :
    (id : ℕ) (invalid : String) (result : Result Json) (k : Json → Handler)
    → ((item : Json) → Answered always id (k item))
    → Answered always id (read_item id invalid result k)
read_item-Answered id invalid (ok item) k each = each item
read_item-Answered id invalid (err e) k each = (tt, refl, tt)

pub install_result-Answered :
    (id : ℕ) (server : String) (result : Result String)
    → Answered always id (install_result id server result)
install_result-Answered id server (ok path) = (tt, refl, tt)
install_result-Answered id server (err e) = (tt, refl, tt)

will_renamed-Answered :
    (f : FileRename) (edits : Items) (result : Result (Option Json)) (k : Items → Handler)
    → ((e : Items) → Answered always f.id (k e))
    → Answered always f.id (will_renamed f edits result k)
will_renamed-Answered f edits (ok edit) k each = each (push_found edits edit)
will_renamed-Answered f edits (err e) k each = (tt, refl, tt)

did_renamed-Answered :
    (f : FileRename) (edits : Items) (result : Result (Unit {0})) (k : Items → Handler)
    → ((e : Items) → Answered always f.id (k e))
    → Answered always f.id (did_renamed f edits result k)
did_renamed-Answered f edits (ok done) k each = each edits
did_renamed-Answered f edits (err e) k each = (tt, refl, tt)

rename_at-Answered :
    (f : FileRename) (c : ℕ) (will did : Bool) (edits : Items) (k : Items → Handler)
    → ((e : Items) → Answered always f.id (k e))
    → Answered always f.id (rename_at f c will did edits k)
unfolding rename_at
rename_at-Answered f c will did edits k each =
    if-Answered f.id (f.phase == "prepare" && will) _ _
      (λ result. will_renamed-Answered f edits result k each)
      (if-Answered f.id (f.phase == "did" && did) _ _
        (λ result. did_renamed-Answered f edits result k each) (each edits))

rename_each-Answered :
    (f : FileRename) (current : String) (cs : List ℕ) (supported : Bool) (edits : Items)
    → Answered always f.id (rename_each f current cs supported edits)
unfolding rename_each
rename_each-Answered f current [] supported edits = (tt, refl, tt)
rename_each-Answered f current (c ∷ cs) supported edits = λ will did.
    rename_at-Answered f c will did edits _
      (rename_each-Answered f current cs (supported || (will || did)))

pub file_rename-Answered :
    (address : ℕ → String) (id : ℕ) (old new : String) (directory : Bool) (phase identity : String)
    → Answered always id (handle_file_rename address id old new directory phase identity)
unfolding handle_file_rename rename_checked
file_rename-Answered address id old new directory phase identity = λ clients.
    if-Answered id (not (phase == "prepare") && not (identity == identity_of address clients)) _ _
      (tt, refl, tt) (rename_each-Answered _ _ clients false nil)
