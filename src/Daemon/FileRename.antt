-- ===== src/Daemon/FileRename.antt =====
-- src/simplecc/simplecc_daemon.rs, handle_request: the renaming of a file, before it and after it.
use Prim.Native.String.{◌++◌ as append_text}
use simplecc.Base.{
  Result, ok, err, ℕ, String, Bool, true, false, not, ◌&&◌, ◌||◌, Option, none, some, List, [], ◌∷◌,
  map, ◌==◌, string_key, if◌then◌else◌,
}
use simplecc.Base.Sort.{sort_by}
use simplecc.Config.{str_leb}
use simplecc.Json.{Json, boolean, string, array, Items, nil, cons, field, end}
use simplecc.Daemon.Handler.{Call, Handler, perform, active_clients, call, reply, error_reply}

unfoldable pub join : List String → String
join [] = ""
join (k ∷ []) = k
join (k ∷ l ∷ ks) = append_text k (append_text "|" (join (l ∷ ks)))

-- The clients by their addresses, which the text of a pointer gives.
unfoldable pub identity_of : (ℕ → String) → List ℕ → String
unfolding join
identity_of address clients = join (sort_by str_leb (map address clients))

-- `edits.push`.
unfoldable pub push_item : Items → Json → Items
push_item nil v = cons v nil
push_item (cons w ws) v = cons w (push_item ws v)

abbrev pub push_found : Items → Option Json → Items
push_found edits none = edits
push_found edits (some edit) = push_item edits edit

-- The renaming that is asked for.
pub record FileRename : Type 0 where
  pub id : ℕ
  pub old : String
  pub new : String
  pub directory : Bool
  pub phase : String

abbrev pub renamed : FileRename → String → Bool → Items → Handler
renamed r current supported edits = reply "fileRename" r.id (
    field "identity" (string current)
      (field "supported" (boolean supported) (field "edits" (array edits) end)))

abbrev pub will_renamed : FileRename → Items → Result (Option Json) → (Items → Handler) → Handler
will_renamed r edits (ok edit) k = k (push_found edits edit)
will_renamed r edits (err other) k =
    error_reply r.id
      (append_text "willRenameFiles failed: " (append_text other "; rename canceled"))

abbrev pub did_renamed : FileRename → Items → Result (Unit {0}) → (Items → Handler) → Handler
did_renamed r edits (ok done) k = k edits
did_renamed r edits (err e) k = error_reply r.id e

-- What a client is asked or told, by the phase and by what it has registered for.
unfoldable pub rename_at : FileRename → ℕ → Bool → Bool → Items → (Items → Handler) → Handler
rename_at r c will did edits k =
    if r.phase == "prepare" && will
    then perform (call c (Call.will_rename_files r.old r.new))
        (λ result. will_renamed r edits result k)
    else if r.phase == "did" && did
    then perform (call c (Call.did_rename_files r.old r.new))
        (λ result. did_renamed r edits result k)
    else k edits

unfoldable pub rename_each : FileRename → String → List ℕ → Bool → Items → Handler
rename_each r current [] supported edits = renamed r current supported edits
rename_each r current (c ∷ cs) supported edits =
    perform (call c (Call.matches_file_rename r.old r.directory true)) (λ will.
      perform (call c (Call.matches_file_rename r.old r.directory false)) (λ did.
        rename_at r c will did edits
          (λ edits'. rename_each r current cs (supported || (will || did)) edits')))

unfoldable pub rename_checked : FileRename → String → String → List ℕ → Handler
rename_checked r identity current clients =
    if not (r.phase == "prepare") && not (identity == current)
    then error_reply r.id "language-server connection changed; rename canceled"
    else rename_each r current clients false nil

unfoldable pub handle_file_rename :
    (ℕ → String) → ℕ → String → String → Bool → String → String → Handler
unfolding rename_checked
handle_file_rename address id old new directory phase identity = perform active_clients (λ clients.
    rename_checked (record { id = id; old = old; new = new; directory = directory; phase = phase })
      identity (identity_of address clients) clients)
