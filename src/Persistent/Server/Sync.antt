-- ===== src/Persistent/Server/Sync.antt =====
-- What the editor shows and what the server holds, in the handlers of
-- client/commands/v2/persistent.py.
use pyre_check.Base.{
  [], ◌∷◌, List, refl, ◌≡◌, some, none, Option, true, false, Bool, arith, String, ◌==◌, inl, inr,
  if◌then◌else◌, not, ◌||◌, ◌&&◌, ◌∙◌, ◌≢◌, eq_iff, Bool-cases, sym,
}
use pyre_check.Configuration.Parse.{among}
use pyre_check.Persistent.Diagnostics.{
  Diagnostic, DiagnosticMap, lookup, TypeError, type_errors_to_diagnostics,
}
use pyre_check.Persistent.Server.{
  idle, connecting, launching, established, launches, launched, launch_failed, lost, quits, Message,
  World, show_type_errors_to_client, add_document, publish, remove_document, show_file, show_files,
  subscribed, process_close_request, process_did_save_request, process_open_request, Phase,
  background, lose_connection, update_type_errors, write, Background, show_message, error_response,
  info_level, warning_level, launching, idle, error_level, type_errors, established, launches,
  quits, is_task_running,
}

-- The diagnostics that the editor shows for a file: those published last.
abbrev pub view : List Message → String → List Diagnostic
view [] file = []
view (publish key diagnostics ∷ older) file = if key == file then diagnostics else view older file
view (_ ∷ older) file = view older file

abbrev pub or_none : Option (List Diagnostic) → List Diagnostic
or_none none = []
or_none (some diagnostics) = diagnostics

-- An open file shows its diagnostics and a closed one none; a task that is not subscribed has none.
pub record IsSynced (w : World) : Type 0 where
  pub shown :
      (file : String)
      → view w.output file
        ≡ (if among file w.opened_documents then or_none (lookup file w.diagnostics) else [])
  pub empty : w.phase ≢ subscribed → w.diagnostics ≡ []

view-show_file :
    (key file : String) (o : Option (List Diagnostic)) (output : List Message)
    → view (show_file key o output) file ≡ (if key == file then or_none o else view output file)
unfolding show_file
view-show_file key file none output = refl
view-show_file key file (some d) output = ground arith

view-show_files :
    (m : DiagnosticMap) (file : String) (files : List String) (output : List Message)
    → view (show_files m files output) file
      ≡ (if among file files then or_none (lookup file m) else view output file)
unfolding show_files
view-show_files m file [] output = refl
view-show_files m file (key ∷ files) output =
    view-show_files m file files (show_file key (lookup key m) output)
    ∙ ground (arith, view-show_file key file (lookup key m) output, eq_iff key file)

among-add_document :
    (file other : String) (opened : List String)
    → among other (add_document file opened) ≡ ((file == other) || among other opened)
among-add_document file other opened = elim (Bool-cases (among file opened)) [
  | inl e ↦ rw e (ground (arith, eq_iff file other, e))
  | inr e ↦ rw e
]

among-remove_document :
    (file other : String) (opened : List String)
    → among other (remove_document file opened) ≡ (not (file == other) && among other opened)
among-remove_document file other [] = ground arith
among-remove_document file other (x ∷ opened) = ground (
  arith,
  among-remove_document file other opened,
  eq_iff x file,
  eq_iff x other,
  eq_iff file other,
)

show_type_errors-shown :
    (w : World) (file : String)
    → (among file w.opened_documents ≡ false → view w.output file ≡ [])
    → view (show_type_errors_to_client w).output file
      ≡ (if among file w.opened_documents then or_none (lookup file w.diagnostics) else [])
unfolding show_type_errors_to_client
show_type_errors-shown w file h =
    view-show_files w.diagnostics file w.opened_documents w.output ∙ ground arith

lookup-nil : (file : String) → lookup file [] ≡ none
unfolding lookup
lookup-nil file = refl

-- With no diagnostics nothing is shown, whatever is open.
nothing_held :
    (b : Bool) (file : String) (m : DiagnosticMap)
    → m ≡ []
    → (if b then or_none (lookup file m) else []) ≡ []
nothing_held true file m e = rw (e, lookup-nil file)
nothing_held false file m e = refl

not_running : (w : World) → is_task_running w ≡ false → w.phase ≢ subscribed
not_running w e = λ p. ground arith

pub process_open_request-IsSynced :
    (file : String) (w : World) → IsSynced w → IsSynced (process_open_request file w)
unfolding process_open_request
process_open_request-IsSynced file w h = elim (Bool-cases (is_task_running w)) [
  | inl running ↦ rw running (record {
    shown = λ other. ground (
      arith,
      h.shown other,
      h.shown file,
      among-add_document file other w.opened_documents,
      eq_iff file other,
    );
    empty = λ p. ground (arith, h.empty);
  })
  | inr stopped ↦
      let none_held = h.empty (not_running w stopped) in
      rw stopped (record {
        shown = λ other.
            h.shown other
            ∙ nothing_held (among other w.opened_documents) other w.diagnostics none_held
            ∙ sym (
                nothing_held (among other (add_document file w.opened_documents)) other
                  w.diagnostics none_held);
        empty = λ p. none_held;
      })
]

pub process_close_request-IsSynced :
    (file : String) (w : World) → IsSynced w → IsSynced (process_close_request file w)
unfolding process_close_request
process_close_request-IsSynced file w h = record {
  shown = λ other. ground (
    arith,
    h.shown other,
    among-remove_document file other w.opened_documents,
    eq_iff file other,
  );
  empty = λ p. ground (arith, h.empty);
}

pub process_did_save_request-IsSynced :
    (file : String) (w : World) → IsSynced w → IsSynced (process_did_save_request file w)
unfolding process_did_save_request
process_did_save_request-IsSynced file w h = record {
  shown = λ other. ground (arith, h.shown other);
  empty = λ p. ground (arith, h.empty);
}

-- A write that publishes nothing.
abbrev pub NotPublished : Message → Type 0
NotPublished (publish _ _) = ⊥
NotPublished _ = Unit

pub write-IsSynced : (m : Message) (w : World) → NotPublished m → IsSynced w → IsSynced (write m w)
write-IsSynced (publish _ _) w n h = absurd n
write-IsSynced (show_message l) w n h = record { shown = h.shown; empty = h.empty }
write-IsSynced (error_response id code) w n h = record { shown = h.shown; empty = h.empty }

-- Nothing is shown of a file that is not open.
closed_shows_nothing :
    (w : World) (file : String)
    → IsSynced w
    → among file w.opened_documents ≡ false
    → view w.output file ≡ []
closed_shows_nothing w file h closed = rw closed at (h.shown file)

pub lose_connection-IsSynced : (w : World) → IsSynced w → IsSynced (lose_connection w)
unfolding lose_connection
lose_connection-IsSynced w h = record {
  shown = λ file.
      show_type_errors-shown
        (record w { diagnostics = []; output = show_message warning_level ∷ w.output }) file
        (closed_shows_nothing w file h);
  empty = λ p. refl;
}

type_errors-IsSynced :
    (errors : List TypeError) (w : World)
    → w.phase ≡ subscribed
    → IsSynced w
    → IsSynced (show_type_errors_to_client (update_type_errors errors w))
unfolding update_type_errors show_type_errors_to_client
type_errors-IsSynced errors w p h = record {
  shown = λ file.
      show_type_errors-shown (record w { diagnostics = type_errors_to_diagnostics errors }) file
        (closed_shows_nothing w file h);
  empty = λ n. absurd (n p);
}

phase-IsSynced :
    (phase : Phase) (w : World)
    → w.diagnostics ≡ []
    → IsSynced w
    → IsSynced (record w { phase = phase })
phase-IsSynced phase w e h = record { shown = h.shown; empty = λ p. e }

pub background-IsSynced :
    (b : Background) (phase : Phase) (w : World)
    → w.phase ≡ phase
    → IsSynced w
    → IsSynced (background b phase w)
unfolding background
background-IsSynced established connecting w p h =
    phase-IsSynced subscribed (write (show_message info_level) w) (h.empty (λ e. cc))
      (write-IsSynced _ w tt h)
background-IsSynced launches connecting w p h =
    phase-IsSynced launching (write (show_message info_level) w) (h.empty (λ e. cc))
      (write-IsSynced _ w tt h)
background-IsSynced launched launching w p h =
    phase-IsSynced subscribed (write (show_message info_level) w) (h.empty (λ e. cc))
      (write-IsSynced _ w tt h)
background-IsSynced launch_failed launching w p h =
    phase-IsSynced idle (write (show_message error_level) w) (h.empty (λ e. cc))
      (write-IsSynced _ w tt h)
background-IsSynced (type_errors errors) subscribed w p h = type_errors-IsSynced errors w p h
background-IsSynced lost subscribed w p h = lose_connection-IsSynced w h
background-IsSynced quits connecting w p h = phase-IsSynced idle w (h.empty (λ e. cc)) h
background-IsSynced quits launching w p h = phase-IsSynced idle w (h.empty (λ e. cc)) h
background-IsSynced _ _ w p h = h
