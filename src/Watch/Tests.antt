-- ===== src/Watch/Tests.antt =====
-- A file of src/simplecc/workspace_watcher.rs that is written, renamed over another, and written.
use simplecc.Base.{arith, true, string_key, ◌≡◌, refl, some, List, [], ◌∷◌}
use simplecc.Base.Assoc.{insert, lookup}
use simplecc.Watch.{
  both, modify, rename, Event, merge_event, merge_events, merge_path, merge_paths, merge_rename,
}
use simplecc.Watch.Recent.{did_change_watched_files, pick, pick_one}
use simplecc.Watch.Spaced.{Calls, InOrder, Spaced, sent_by, sent_by-Spaced}
use simplecc.Watch.Merged.{verdict, all_reports, merge_events-verdict}

abbrev save : List Event
save =
    record { kind = modify; paths = "a.tmp" ∷ [] }
    ∷ record { kind = rename both; paths = "a.tmp" ∷ "a.rs" ∷ [] }
    ∷ record { kind = modify; paths = "a.rs" ∷ [] }
    ∷ []

save_creates : lookup "a.rs" (merge_events [] save) ≡ some 1
unfolding merge_events merge_event merge_path merge_paths merge_rename lookup insert
save_creates = refl

merge_events-verdict_example :
    lookup "a.tmp" (merge_events [] save) ≡ verdict "a.tmp" (all_reports save)
merge_events-verdict_example = merge_events-verdict save "a.tmp"

-- Vim's save hook and the watcher report one write.
abbrev write_twice : Calls
write_twice =
    (100, ("file:///a.rs", 2) ∷ [])
    ∷ (200, ("file:///a.rs", 2) ∷ [])
    ∷ (400, ("file:///a.rs", 2) ∷ [])
    ∷ []

write_twice-InOrder : InOrder 0 write_twice
write_twice-InOrder = (omega arith, (omega arith, (omega arith, tt)))

second_dropped :
    sent_by (λ k. true) [] write_twice []
    ≡ (400, ("file:///a.rs", 2)) ∷ (100, ("file:///a.rs", 2)) ∷ []
unfolding did_change_watched_files pick pick_one lookup insert
second_dropped = refl

sent_by-Spaced_example : Spaced (sent_by (λ k. true) [] write_twice [])
sent_by-Spaced_example = sent_by-Spaced (λ k. true) write_twice write_twice-InOrder
