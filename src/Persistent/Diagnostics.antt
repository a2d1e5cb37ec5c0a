-- ===== src/Persistent/Diagnostics.antt =====
-- Type errors of the Pyre server, and the diagnostics of the editor (client/error.py,
-- client/commands/v2/incremental.py, persistent.py and language_server_protocol.py).
pub mod Grouping
use pyre_check.Base.{
  [], ◌∷◌, ◌++◌, List, refl, ◌≡◌, some, none, Option, true, false, Bool, arith, String, ◌==◌, ap,
  ok, err, Result, inl, inr, ◌>>=◌, ◌>>◌, if◌then◌else◌, pred_ℤ, ℕ, ℤ,
}

pub record TypeError : Type 0 where
  pub line : ℤ
  pub column : ℤ
  pub stop_line : ℤ
  pub stop_column : ℤ
  pub file : String
  pub description : String

pub record Position : Type 0 where
  pub line : ℤ
  pub character : ℤ

pub record Range : Type 0 where
  pub start : Position
  pub stop : Position

-- `code` is always None, `source` always "Pyre" and `severity` always ERROR here.
pub record Diagnostic : Type 0 where
  pub range : Range
  pub message : String
  pub severity : ℕ
  pub source : String

-- DiagnosticSeverity.ERROR
abbrev pub error_severity : ℕ
error_severity = 1

-- Lines of type errors start at 1, those of the protocol at 0.
unfoldable pub type_error_to_diagnostic : TypeError → Diagnostic
type_error_to_diagnostic e = record {
  range = record {
    start = record { line = pred_ℤ e.line; character = e.column };
    stop = record { line = pred_ℤ e.stop_line; character = e.stop_column };
  };
  message = e.description;
  severity = error_severity;
  source = "Pyre";
}

-- The dict from paths to diagnostics, in the order of insertion.
abbrev pub DiagnosticMap : Type 0
DiagnosticMap = List (String × List Diagnostic)

-- `diagnostics.get(path, None)`
unfoldable pub lookup : String → DiagnosticMap → Option (List Diagnostic)
lookup file [] = none
lookup file ((key, value) ∷ rest) = if key == file then some value else lookup file rest

-- `result.setdefault(file, []).append(diagnostic)`
pub add_to : String → Diagnostic → DiagnosticMap → DiagnosticMap
add_to file diagnostic [] = (file, diagnostic ∷ []) ∷ []
add_to file diagnostic ((key, value) ∷ rest) =
    let later = add_to file diagnostic rest in
    if key == file then (key, value ++ (diagnostic ∷ [])) ∷ rest else (key, value) ∷ later

pub add_all : DiagnosticMap → List TypeError → DiagnosticMap
add_all result [] = result
add_all result (e ∷ rest) = add_all (add_to e.file (type_error_to_diagnostic e) result) rest

unfoldable pub type_errors_to_diagnostics : List TypeError → DiagnosticMap
unfolding add_all add_to
type_errors_to_diagnostics = add_all []
