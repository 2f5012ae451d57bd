-- ===== src/Execute/Tests.antt =====
-- Execution and offers of src/simplecc/lsp/client.rs at concrete worlds.
use simplecc.Base.{◌≡◌, refl, true, none, some, [], ◌∷◌}
use simplecc.Edit.{Range}
use simplecc.Cache.{IdentityCache, matches, item}
use simplecc.Cache.History.{document_edge, requested, step}
use simplecc.Execute.{Command, replied}
use simplecc.Execute.Lens.{CodeLens, LensWorld, execute_code_lens}
use simplecc.Execute.Action.{Action, ActionWorld, bare}
use simplecc.Execute.LensSafety.{lens_writes}

abbrev run_tests : Command
run_tests = record { title = "Run"; command = "run"; arguments = none }

abbrev top : Range
top = record {
  start = record { line = 0; character = 0 };
  end = record { line = 0; character = 3 };
}

abbrev lens : CodeLens
lens = record { range = top; command = none; payload = none }

abbrev resolved_lens : CodeLens
resolved_lens = record { range = top; command = some run_tests; payload = none }

abbrev lenses : IdentityCache CodeLens
lenses = record { generation = 4; uri = "a"; items = lens ∷ [] }

abbrev quiet : LensWorld
quiet = record {
  resolving = document_edge "b" ∷ [];
  resolved = some resolved_lens;
  sending = [];
  wire = record { alive = true; accepts = true };
  reply = replied none;
}

lens_writes_example : (execute_code_lens lenses 4 "a" 0 quiet).written ≡ some run_tests
unfolding item matches step
lens_writes_example =
    (lens_writes lenses 4 "a" 0 quiet run_tests).1
      (lens, resolved_lens, refl, refl, refl, (refl, (refl, refl, refl)))

abbrev edited : LensWorld
edited = record quiet { sending = requested 3 "c" ∷ document_edge "a" ∷ [] }

abbrev actions : IdentityCache Action
actions = record { generation = 2; uri = "a"; items = bare run_tests ∷ [] }

abbrev calm : ActionWorld
calm = record {
  alive_at_start = true;
  resolving = [];
  resolved = none;
  alive_resolved = true;
  sending = [];
  wire = record { alive = true; accepts = true };
  running = [];
  alive_after = true;
  reply = replied none;
}
