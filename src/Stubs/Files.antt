-- ===== src/Stubs/Files.antt =====
-- The stub files: the errors of a file in the order of their lines, and the paths that they are written to.
use Prim.Native.String
use pyre_check.PathLib.{PurePath, path, path_text, ◌/◌}
use pyre_check.Texts.{codes, starts_with}
use pyre_check.Stubs.{Stub, StubError, is_complete, is_field, is_function, is_method, join_stubs}
use pyre_check.Stubs.Joined.{join_stubs-joined}
use pyre_check.Base.{
  ap, List, [], ◌∷◌, ◌++◌, Option, some, none, Result, ok, ◌>>=◌, Bool, true, false, String, ◌==◌,
  if◌then◌else◌, ◌≡◌, refl, All, any, keep, Dict, ℕ, sort_by, Bool-cases, inl, inr,
}

-- An error; its inference, if it has one, is the stub that is made of it, if it is one of a stub.
pub record InferredError : Type 0 where
  pub path : String
  pub line : ℕ
  pub inference : Option (Option Stub)

pub record StubFile : Type 0 where
  pub stubs : List Stub
  pub fields : List Stub
  pub functions : List Stub
  pub methods : List Stub
  pub location : PurePath

file_of : String → Bool → List Stub → StubFile
unfolding is_complete is_field is_function is_method path
file_of error_path full_only joined =
    let kept = if full_only then keep is_complete joined else joined in
    record {
      stubs = kept;
      fields = keep is_field kept;
      functions = keep is_function kept;
      methods = keep is_method kept;
      location = path error_path;
    }

-- StubFile.__init__
unfoldable pub stub_file : String → List Stub → Bool → Result StubError StubFile
unfolding join_stubs file_of
stub_file error_path stubs full_only =
    join_stubs stubs >>= λ joined. ok (file_of error_path full_only joined)

unfoldable pub has_no_stubs : StubFile → Bool
has_no_stubs file = elim file.stubs [ [] ↦ true | s ∷ stubs ↦ false ]

unfoldable pub stub_path : StubFile → PurePath → PurePath
unfolding path path_text
stub_path file directory = directory / path (String.◌++◌ (path_text file.location) "i")

unfoldable pub has_inference : InferredError → Bool
has_inference error = elim error.inference [ none ↦ false | some stub ↦ true ]

unfoldable pub stubs_of : List InferredError → List Stub
stubs_of [] = []
stubs_of (error ∷ errors) =
    let later = stubs_of errors in
    elim error.inference [ some (some stub) ↦ stub ∷ later | some none ↦ later | none ↦ later ]

-- `files[error.error.path].append(error)`
unfoldable pub append_error : InferredError → Dict (List InferredError) → Dict (List InferredError)
append_error error [] = (error.path, error ∷ []) ∷ []
append_error error (file ∷ files) =
    let later = append_error error files in
    if file.0 == error.path then (file.0, file.1 ++ (error ∷ [])) ∷ files else file ∷ later

unfoldable pub group_errors :
    List InferredError → Dict (List InferredError) → Dict (List InferredError)
unfolding append_error
group_errors [] files = files
group_errors (error ∷ errors) files = group_errors errors (append_error error files)

unfoldable pub make_files : Bool → Dict (List InferredError) → Result StubError (List StubFile)
unfolding stub_file stubs_of has_no_stubs
make_files full_only [] = ok []
make_files full_only (file ∷ files) = stub_file file.0 (stubs_of file.1) full_only >>= λ stub.
    make_files full_only files >>= λ stubs. ok (if has_no_stubs stub then stubs else stub ∷ stubs)

unfoldable pub generate_stub_files : Bool → List InferredError → Result StubError (List StubFile)
unfolding make_files group_errors sort_by has_inference
generate_stub_files full_only errors =
    make_files full_only
      (group_errors (sort_by (λ (e : InferredError). e.line) (keep has_inference errors)) [])

-- The files at or below the paths that were asked for, by the texts of the paths.
unfoldable pub filter_paths : List StubFile → List String → List StubFile
unfolding stub_path path_text path starts_with
filter_paths stubs in_place =
    keep
      (λ (stub : StubFile).
        any (λ asked. starts_with (codes asked) (codes (path_text (stub_path stub (path "")))))
          in_place)
      stubs

-- A file without stubs is left out.
with_file :
    (f : StubFile) (stubs : List StubFile)
    → All (λ f. has_no_stubs f ≡ false) stubs
    → All (λ f. has_no_stubs f ≡ false) (if has_no_stubs f then stubs else f ∷ stubs)
with_file f stubs full = elim (Bool-cases (has_no_stubs f)) [
  | inl empty ↦ rw empty full
  | inr some_stub ↦ rw some_stub (some_stub, full)
]

stub_file_returns :
    (error_path : String) (stubs : List Stub) (full_only : Bool)
    → (file : StubFile) × (stub_file error_path stubs full_only ≡ ok file)
unfolding stub_file
stub_file_returns error_path stubs full_only =
    let (joined, returned, _, _) = join_stubs-joined stubs in
    (
      file_of error_path full_only joined,
      ap (λ r. r >>= λ joined. ok (file_of error_path full_only joined)) returned,
    )

make_files_returns :
    (full_only : Bool) (files : Dict (List InferredError))
    → (stubs : List StubFile) × (make_files full_only files ≡ ok stubs)
      × All (λ f. has_no_stubs f ≡ false) stubs
unfolding make_files
make_files_returns full_only [] = ([], refl, tt)
make_files_returns full_only (file ∷ files) =
    let (f, returned) = stub_file_returns file.0 (stubs_of file.1) full_only in
    let (stubs, made, full) = make_files_returns full_only files in
    (
      if has_no_stubs f then stubs else f ∷ stubs,
      rw returned (rw made refl),
      with_file f stubs full,
    )

-- Stub files are always generated: no list of errors makes it raise, and no file is without stubs.
pub generate_stub_files_returns :
    (full_only : Bool) (errors : List InferredError)
    → (stubs : List StubFile) × (generate_stub_files full_only errors ≡ ok stubs)
      × All (λ f. has_no_stubs f ≡ false) stubs
unfolding generate_stub_files
generate_stub_files_returns full_only errors = make_files_returns full_only _
