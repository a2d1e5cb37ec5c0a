-- ===== src/Persistent/Diagnostics/Grouping.antt =====
-- About type_errors_to_diagnostics (client/commands/v2/persistent.py).
use pyre_check.Base.{
  [], ◌∷◌, ◌++◌, List, refl, ◌≡◌, some, none, Option, arith, String, ◌==◌, ap, inl, inr, append-nil,
  append_assoc, map, ◌∙◌, if◌then◌else◌, sym, Bool-cases, eq_iff, keep,
}
use pyre_check.Persistent.Diagnostics.{
  Diagnostic, TypeError, add_all, lookup, type_errors_to_diagnostics, DiagnosticMap, add_to,
  type_error_to_diagnostic,
}

-- The diagnostics of one file among the type errors.
abbrev pub diagnostics_of : String → List TypeError → List Diagnostic
diagnostics_of file errors = map type_error_to_diagnostic (keep (λ e. e.file == file) errors)

-- What a file has after more is appended: nothing stays no entry.
abbrev extend : Option (List Diagnostic) → List Diagnostic → Option (List Diagnostic)
extend none [] = none
extend none (d ∷ ds) = some (d ∷ ds)
extend (some old) ds = some (old ++ ds)

lookup-add_to :
    (file other : String) (d : Diagnostic) (m : DiagnosticMap)
    → lookup other (add_to file d m)
      ≡ (if file == other then extend (lookup other m) (d ∷ []) else lookup other m)
unfolding lookup add_to
lookup-add_to file other d [] = ground (arith, eq_iff file other)
lookup-add_to file other d ((key, value) ∷ rest) =
    ground
      (arith, eq_iff file other, eq_iff key file, eq_iff key other, lookup-add_to file other d rest)

extend-extend :
    (o : Option (List Diagnostic)) (d : Diagnostic) (ds : List Diagnostic)
    → extend (extend o (d ∷ [])) ds ≡ extend o (d ∷ ds)
extend-extend none d ds = refl
extend-extend (some old) d ds = ap some (append_assoc old (d ∷ []) ds)

extend-nil : (o : Option (List Diagnostic)) → extend o [] ≡ o
extend-nil none = refl
extend-nil (some old) = ap some (append-nil old)

lookup-add_all :
    (file : String) (m : DiagnosticMap) (errors : List TypeError)
    → lookup file (add_all m errors) ≡ extend (lookup file m) (diagnostics_of file errors)
unfolding add_all
lookup-add_all file m [] = sym (extend-nil (lookup file m))
lookup-add_all file m (e ∷ rest) = elim (Bool-cases (e.file == file)) [
  | inl same ↦
      rw
        (
          lookup-add_all file (add_to e.file (type_error_to_diagnostic e) m) rest,
          lookup-add_to e.file file (type_error_to_diagnostic e) m,
          same,
        )
        (extend-extend (lookup file m) (type_error_to_diagnostic e) (diagnostics_of file rest))
  | inr differs ↦ rw (
    lookup-add_all file (add_to e.file (type_error_to_diagnostic e) m) rest,
    lookup-add_to e.file file (type_error_to_diagnostic e) m,
    differs,
  )
]

abbrev some_unless_empty : List Diagnostic → Option (List Diagnostic)
some_unless_empty [] = none
some_unless_empty (d ∷ ds) = some (d ∷ ds)

-- A file has an entry exactly when some type error is in it, and the entry has the diagnostic of each
-- of its type errors, in the order of the type errors.
pub lookup-type_errors_to_diagnostics :
    (file : String) (errors : List TypeError)
    → lookup file (type_errors_to_diagnostics errors)
      ≡ some_unless_empty (diagnostics_of file errors)
unfolding type_errors_to_diagnostics lookup
lookup-type_errors_to_diagnostics file errors =
    lookup-add_all file [] errors ∙ from_nothing (diagnostics_of file errors)
  where
    from_nothing : (ds : List Diagnostic) → extend none ds ≡ some_unless_empty ds
    from_nothing [] = refl
    from_nothing (d ∷ ds) = refl
