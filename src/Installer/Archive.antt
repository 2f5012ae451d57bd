-- ===== src/Installer/Archive.antt =====
-- src/simplecc/installer.rs: extract_tar_gz and extract_zip_within. An I/O error is left out; what
-- the archive libraries say of an entry is data.
use simplecc.Base.{
  ℕ, suc, ◌+◌, ◌-◌, ◌*◌, ◌^◌, ◌≤◌, Bool-cases, inl, inr, Bool, not, Option, none, some, List, [],
  ◌∷◌, Result, ok, err, length, ltb, leb, if◌then◌else◌, arith,
}
use simplecc.Installer.{Name}

abbrev pub max_extracted_bytes : ℕ
max_extracted_bytes = 1024 * 1024 * 1024

abbrev pub max_archive_entries : ℕ
max_archive_entries = 100000

-- The components of a path below the directory of the installation.
abbrev pub Components : Type 0
Components = List Name

-- `enclosed` is none for a path that leaves the directory; `decoded` is how many bytes the decoder
-- has for the entry, whatever the archive says of it.
pub record ZipEntry : Type 0 where
  pub enclosed : Option Components
  pub is_dir : Bool
  pub decoded : ℕ

-- Without the first component, if there is another.
abbrev pub strip_top_dir : Components → Option Components
strip_top_dir [] = none
strip_top_dir (top ∷ []) = none
strip_top_dir (top ∷ name ∷ names) = some (name ∷ names)

-- The files with the bytes that are written.
abbrev pub Extraction : Type 0
Extraction = List (Components × ℕ) × Result (Unit {0})

abbrev pub wrote : Components → ℕ → Extraction → Extraction
wrote path n (files, result) = ((path, n) ∷ files, result)

-- `Read::take` with the budget that is left and one.
abbrev pub copied : ℕ → ℕ → ℕ
copied decoded limit = if ltb limit decoded then limit else decoded

abbrev pub write_file : Components → ℕ → ℕ → (ℕ → Extraction) → Extraction
write_file path written remaining next =
    if ltb remaining written
    then ((path, written) ∷ [], err "expanded zip archive exceeds the safety limit")
    else wrote path written (next (remaining - written))

abbrev pub unpack_entry : ZipEntry → Option Components → ℕ → (ℕ → Extraction) → Extraction
unpack_entry entry none remaining next = next remaining
unpack_entry entry (some path) remaining next =
    if entry.is_dir
    then next remaining
    else write_file path (copied entry.decoded (remaining + 1)) remaining next

abbrev pub safe_entry : ZipEntry → Option Components → ℕ → (ℕ → Extraction) → Extraction
safe_entry entry none remaining next = ([], err "unsafe zip entry path")
safe_entry entry (some path) remaining next = unpack_entry entry (strip_top_dir path) remaining next

unfoldable pub extract_entries : List ZipEntry → ℕ → Extraction
extract_entries [] remaining = ([], ok tt)
extract_entries (entry ∷ rest) remaining =
    safe_entry entry entry.enclosed remaining (extract_entries rest)

unfoldable pub extract_zip_within : List ZipEntry → ℕ → Extraction
unfolding extract_entries
extract_zip_within archive budget =
    if ltb max_archive_entries (length archive)
    then ([], err "zip archive exceeds the entry-count safety limit")
    else extract_entries archive budget

abbrev pub extract_zip : List ZipEntry → Extraction
extract_zip archive = extract_zip_within archive max_extracted_bytes

-- `size` is that of the header; `inside` is what `unpack_in` answers.
pub record TarEntry : Type 0 where
  pub is_file_or_dir : Bool
  pub size : ℕ
  pub inside : Bool

abbrev pub unpacked : ℕ → List ℕ × Result (Unit {0}) → List ℕ × Result (Unit {0})
unpacked size (sizes, result) = (size ∷ sizes, result)

-- The sizes of the entries that are unpacked.
unfoldable pub tar_entries : ℕ → ℕ → List TarEntry → List ℕ × Result (Unit {0})
tar_entries index extracted [] = ([], ok tt)
tar_entries index extracted (entry ∷ rest) =
    let later = tar_entries (suc index) (extracted + entry.size) rest in
    if leb max_archive_entries index
    then ([], err "tar archive exceeds the entry-count safety limit")
    else if not entry.is_file_or_dir
    then ([], err "archive contains unsupported link or special-file entry")
    else if leb (2 ^ 64) (extracted + entry.size)
    then ([], err "expanded archive size overflow")
    else if ltb max_extracted_bytes (extracted + entry.size)
    then ([], err "expanded tar archive exceeds the safety limit")
    else if not entry.inside
    then ([], err "archive entry escapes the installation directory")
    else unpacked entry.size later

abbrev pub extract_tar_gz : List TarEntry → List ℕ × Result (Unit {0})
extract_tar_gz archive = tar_entries 0 0 archive

abbrev pub total : List (Components × ℕ) → ℕ
total [] = 0
total ((path, n) ∷ files) = n + total files

abbrev pub sum : List ℕ → ℕ
sum [] = 0
sum (n ∷ ns) = n + sum ns

-- A failure has written one byte more at most.
abbrev pub IsWithin : ℕ → Extraction → Type 0
IsWithin budget (files, ok u) = total files ≤ budget
IsWithin budget (files, err e) = total files ≤ budget + 1

wrote-IsWithin :
    (path : Components) (n budget : ℕ) (x : Extraction)
    → n ≤ budget
    → IsWithin (budget - n) x
    → IsWithin budget (wrote path n x)
wrote-IsWithin path n budget (files, ok u) h k = omega (arith, h, k)
wrote-IsWithin path n budget (files, err e) h k = omega (arith, h, k)

file-IsWithin :
    (path : Components) (decoded remaining : ℕ) (next : ℕ → Extraction)
    → ((m : ℕ) → IsWithin m (next m))
    → IsWithin remaining (write_file path (copied decoded (remaining + 1)) remaining next)
file-IsWithin path decoded remaining next goes =
    elim (Bool-cases (ltb remaining (copied decoded (remaining + 1)))) [
      | inl over ↦ rw over (ground (arith, over))
      | inr fits ↦
          let small : copied decoded (remaining + 1) ≤ remaining = ground (arith, fits) in
          rw fits (wrote-IsWithin path (copied decoded (remaining + 1)) remaining _ small (goes _))
    ]

entry-IsWithin :
    (entry : ZipEntry) (path : Option Components) (remaining : ℕ) (next : ℕ → Extraction)
    → ((m : ℕ) → IsWithin m (next m))
    → IsWithin remaining (unpack_entry entry path remaining next)
entry-IsWithin entry none remaining next goes = goes remaining
entry-IsWithin entry (some path) remaining next goes = elim (Bool-cases entry.is_dir) [
  | inl dir ↦ rw dir (goes remaining)
  | inr file ↦ rw file (file-IsWithin path entry.decoded remaining next goes)
]

safe-IsWithin :
    (entry : ZipEntry) (path : Option Components) (remaining : ℕ) (next : ℕ → Extraction)
    → ((m : ℕ) → IsWithin m (next m))
    → IsWithin remaining (safe_entry entry path remaining next)
safe-IsWithin entry none remaining next goes = omega arith
safe-IsWithin entry (some path) remaining next goes =
    entry-IsWithin entry (strip_top_dir path) remaining next goes

entries-IsWithin :
    (archive : List ZipEntry) (budget : ℕ) → IsWithin budget (extract_entries archive budget)
unfolding extract_entries
entries-IsWithin [] budget = omega arith
entries-IsWithin (entry ∷ rest) budget =
    safe-IsWithin entry entry.enclosed budget (extract_entries rest) (entries-IsWithin rest)

-- Whatever a zip archive says of its sizes, its files are no more bytes than the budget, and one
-- byte more where the extraction fails.
pub extract_zip-IsWithin :
    (archive : List ZipEntry) (budget : ℕ) → IsWithin budget (extract_zip_within archive budget)
unfolding extract_zip_within
extract_zip-IsWithin archive budget = elim (Bool-cases (ltb max_archive_entries (length archive))) [
  | inl many ↦ rw many (omega arith)
  | inr few ↦ rw few (entries-IsWithin archive budget)
]

tar-sum :
    (index extracted : ℕ) (archive : List TarEntry)
    → extracted ≤ max_extracted_bytes
    → extracted + sum (tar_entries index extracted archive).0 ≤ max_extracted_bytes
unfolding tar_entries
tar-sum index extracted [] h = omega (arith, h)
tar-sum index extracted (entry ∷ rest) h =
    ground (arith, h, tar-sum (suc index) (extracted + entry.size) rest)

tar-count :
    (index extracted : ℕ) (archive : List TarEntry)
    → index ≤ max_archive_entries
    → index + length (tar_entries index extracted archive).0 ≤ max_archive_entries
unfolding tar_entries
tar-count index extracted [] h = omega (arith, h)
tar-count index extracted (entry ∷ rest) h =
    ground (arith, h, tar-count (suc index) (extracted + entry.size) rest)

-- Of a tar archive no more entries than the limit are unpacked, and their sizes, as the archive
-- states them, add up to no more than the limit of bytes.
pub extract_tar_gz_bounds :
    (archive : List TarEntry)
    → (sum (extract_tar_gz archive).0 ≤ max_extracted_bytes)
      × (length (extract_tar_gz archive).0 ≤ max_archive_entries)
extract_tar_gz_bounds archive = (
  omega (arith, tar-sum 0 0 archive (omega arith)),
  omega (arith, tar-count 0 0 archive (omega arith)),
)
