-- ===== src/Daemon/Calls.antt =====
-- src/simplecc/simplecc_daemon.rs: the calls that a handler makes, by the answers that it gets.
use simplecc.Base.{
  ℕ, ◌≡◌, refl, ap, ◌∙◌, String, Option, none, some, List, [], ◌∷◌, ◌++◌, map, append_nil,
  string_key,
}
use simplecc.Config.{ℤ}
use simplecc.Json.{Json}
use simplecc.Daemon.Handler.{Call, Op, Answer, call, perform, stop, Handler, for_each}
use simplecc.Daemon.Documents.{
  handle_did_open, handle_did_change, handle_did_save, handle_did_close, for_filetype,
}

-- In their order, with their clients.
abbrev pub calls_of : ((o : Op) → Answer o) → Handler → List (ℕ × Call)
calls_of answers stop = []
calls_of answers (Handler.send e h) = calls_of answers h
calls_of answers (perform (call c m) k) = (c, m) ∷ calls_of answers (k (answers (call c m)))
calls_of answers (perform o k) = calls_of answers (k (answers o))

abbrev pub to_each : List ℕ → Call → List (ℕ × Call)
to_each cs m = map (λ c. (c, m)) cs

-- The clients of a document: none if the document is not tracked.
abbrev pub document_clients : ((o : Op) → Answer o) → Option String → List ℕ
document_clients answers none = []
document_clients answers (some ft) = answers (Op.filetype_clients ft)

for_each-calls :
    (answers : (o : Op) → Answer o) (cs : List ℕ) (m : Call) (h : Handler)
    → calls_of answers (for_each cs m h) ≡ to_each cs m ++ calls_of answers h
unfolding for_each
for_each-calls answers [] m h = refl
for_each-calls answers (c ∷ cs) m h = ap (λ l. (c, m) ∷ l) (for_each-calls answers cs m h)

each-calls :
    (answers : (o : Op) → Answer o) (cs : List ℕ) (m : Call)
    → calls_of answers (for_each cs m stop) ≡ to_each cs m
each-calls answers cs m = for_each-calls answers cs m stop ∙ append_nil (to_each cs m)

filetype-calls :
    (answers : (o : Op) → Answer o) (ft : Option String) (m : Call) (h : Handler)
    → calls_of answers (for_filetype ft m h)
      ≡ to_each (document_clients answers ft) m ++ calls_of answers h
filetype-calls answers none m h = refl
filetype-calls answers (some ft) m h = for_each-calls answers (answers (Op.filetype_clients ft)) m h

document-calls :
    (answers : (o : Op) → Answer o) (ft : Option String) (m : Call)
    → calls_of answers (for_filetype ft m stop) ≡ to_each (document_clients answers ft) m
document-calls answers ft m =
    filetype-calls answers ft m stop ∙ append_nil (to_each (document_clients answers ft) m)

-- Whatever the operations answer: an opened document goes to each client that its filetype then
-- has, a change and a closing to each client of the filetype that the document is tracked with, and
-- to none if it is not tracked; a save goes there too, and then as a changed file to all active
-- clients. Each is called once, in the order of the answer, whatever the calls before have answered.
pub documents_reach :
    (answers : (o : Op) → Answer o) (uri language_id : String) (version : ℤ) (text : String)
    (new_text : Option String) (changes : Option (List Json))
    → (calls_of answers (handle_did_open uri language_id version text)
        ≡ to_each
            (answers (Op.open_server language_id))
            (Call.did_open uri language_id version text))
      × (calls_of answers (handle_did_change uri version new_text changes)
          ≡ to_each
              (document_clients answers (answers (Op.filetype_of uri)))
              (Call.did_change uri version new_text changes))
      × (calls_of answers (handle_did_close uri)
          ≡ to_each (document_clients answers (answers (Op.untrack uri))) (Call.did_close uri))
      × (calls_of answers (handle_did_save uri new_text)
          ≡ to_each
              (document_clients answers (answers (Op.filetype_of uri)))
              (Call.did_save uri new_text)
            ++ to_each (answers Op.active_clients) (Call.did_change_watched_file uri))
unfolding handle_did_open handle_did_change handle_did_close handle_did_save
documents_reach answers uri language_id version text new_text changes = (
  each-calls answers (answers (Op.open_server language_id)) _,
  document-calls answers (answers (Op.filetype_of uri)) _,
  document-calls answers (answers (Op.untrack uri)) _,
  filetype-calls answers (answers (Op.filetype_of uri)) _ _
      ∙ ap
          (λ l.
            to_each (document_clients answers (answers (Op.filetype_of uri)))
              (Call.did_save uri new_text)
            ++ l)
          (each-calls answers (answers Op.active_clients) (Call.did_change_watched_file uri)),
)
