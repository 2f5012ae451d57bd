-- ===== src/Installer/Tests.antt =====
-- A server of src/simplecc/installer.rs that is updated, and a process that dies meanwhile.
use simplecc.Base.{
  ℕ, ◌≡◌, refl, sym, true, false, ◌==◌, nat_key, Option, none, some, List, [], ◌∷◌, err, inl, inr,
  arith, if◌then◌else◌,
}
use simplecc.Frames.Text.{same_codes, value_from}
use simplecc.Frames.Stream.{digits_before}
use simplecc.Base.Sort.{sort_by, insert_by}
use simplecc.Installer.{
  Name, installing, backup, unique_sibling_path, strip_prefix, split_dash, parse_unsigned,
  hidden_sibling_owner,
}
use simplecc.Installer.Names.{name_key, hidden_sibling_owner_unique}
use simplecc.Installer.Disk.{entries, succeeded, done, Dir, Outside, exec, run}
use simplecc.Installer.Promote.{
  owner_is_stale, judge_labels, pop_from, remove_all, collect, recover_stale_install_siblings,
  promote_installation_sync, install_managed, do_install,
}
use simplecc.Installer.Restored.{do_install-IsRecovered}
use simplecc.Installer.Recover.{IsRecovered}
use simplecc.Installer.Safe.{sibling-ne, siblings-ne}
use simplecc.Installer.Untouched.{recover_untouched}
use simplecc.Installer.Outcome.{IsOutcome, promote-IsOutcome}
use simplecc.Installer.Archive.{
  ZipEntry, TarEntry, IsWithin, extract_entries, extract_zip_within, extract_zip-IsWithin,
}

-- The server "a" with the tree 1; a build delivers the tree 2, and 3 is an empty directory.
abbrev server : Name
server = 97 ∷ []

abbrev before : Dir ℕ
before name = if name == server then some 1 else none

abbrev old : Name
old = unique_sibling_path server backup 7 21

abbrev kind : Outside ℕ
kind = record {
  allows = λ n. true;
  left = λ n. none;
  listing = λ n. entries (old ∷ []);
  built = λ n. (succeeded, 2);
  empty = 3;
}

abbrev updated : ℕ → Dir ℕ
updated n = (run kind n before (do_install 7 (λ pid. false) server 20 21)).1

-- With every call allowed the new tree is installed, and the backup is gone.
installs : ◌≡◌ {A = Option ℕ × Option ℕ} (updated 9 server, updated 9 old) (some 2, none)
unfolding run do_install recover_stale_install_siblings collect hidden_sibling_owner
    unique_sibling_path strip_prefix split_dash parse_unsigned value_from digits_before same_codes
    promote_installation_sync remove_all sort_by insert_by pop_from exec judge_labels
    install_managed owner_is_stale
installs = refl

-- After seven calls nothing is installed, and the old tree is the backup.
dies : ◌≡◌ {A = Option ℕ × Option ℕ} (updated 7 server, updated 7 old) (none, some 1)
unfolding run do_install recover_stale_install_siblings collect hidden_sibling_owner
    unique_sibling_path strip_prefix split_dash parse_unsigned value_from digits_before same_codes
    promote_installation_sync remove_all sort_by insert_by pop_from exec judge_labels
    install_managed owner_is_stale
dies = refl

do_install-IsRecovered_example : IsRecovered kind server old 1 (
    run kind 9
      (updated 7)
      (recover_stale_install_siblings (owner_is_stale 8 (λ pid. true)) server done))
unfolding owner_is_stale same_codes
do_install-IsRecovered_example =
    do_install-IsRecovered kind kind 7 8 (λ pid. false) (λ pid. true) server 20 21 1 before 7 8
      (old ∷ []) (omega arith) (omega arith) (omega arith) refl refl refl (inr (inl refl))
      ((λ owner s h. inl refl), tt)

-- What another process builds is left alone, and everything else is taken for gone.
abbrev building : Name
building = unique_sibling_path server installing 7 22

abbrev with_building : Dir ℕ
with_building name = if name == building then some 2 else before name

recover_untouched_example :
    (run kind 9 with_building (
        recover_stale_install_siblings
          (owner_is_stale 8 (λ pid. if pid == 7 then false else true))
          server
          done)).1
      building
    ≡ with_building building
unfolding hidden_sibling_owner strip_prefix unique_sibling_path
recover_untouched_example =
    recover_untouched 8 (λ pid. if pid == 7 then false else true) server building kind 9
      with_building
      (λ e. absurd (sibling-ne server 7 22 (omega arith) (omega arith) installing (sym e)))
      (inr (
        7,
        22,
        (
          hidden_sibling_owner_unique server installing 7 22 (omega arith) (omega arith),
          (λ e. absurd (omega (arith, e))),
          inl refl,
        ),
      ))
      (inl refl) (inl refl)

-- The tree 2 is staged beside the server.
abbrev staged : Name
staged = unique_sibling_path server installing 7 20

abbrev with_staged : Dir ℕ
with_staged name = if name == staged then some 2 else before name

promote-IsOutcome_example :
    IsOutcome kind 0 staged old server with_staged
      (run kind 4 with_staged (promote_installation_sync staged old server done))
promote-IsOutcome_example =
    promote-IsOutcome kind staged old server
      (sibling-ne server 7 20 (omega arith) (omega arith) installing)
      (siblings-ne server 7 21 (omega arith) (omega arith) 20)
      (sibling-ne server 7 21 (omega arith) (omega arith) backup) with_staged 0

-- Two files that may claim to be small.
abbrev bomb : List ZipEntry
bomb =
    record { enclosed = some ((97 ∷ []) ∷ (98 ∷ []) ∷ []); is_dir = false; decoded = 6 }
    ∷ record { enclosed = some ((97 ∷ []) ∷ (99 ∷ []) ∷ []); is_dir = false; decoded = 90 }
    ∷ []

over_budget : extract_zip_within bomb 10 ≡ (
  ((98 ∷ []) ∷ [], 6) ∷ ((99 ∷ []) ∷ [], 5) ∷ [],
  err "expanded zip archive exceeds the safety limit",
)
unfolding extract_zip_within extract_entries
over_budget = refl

extract_zip-IsWithin_example : IsWithin 10 (extract_zip_within bomb 10)
extract_zip-IsWithin_example = extract_zip-IsWithin bomb 10

abbrev tarball : List TarEntry
tarball = record { is_file_or_dir = true; size = 9; inside = true } ∷ []
