-- ===== src/Examples/Merges.antt =====
-- Two source directories that are merged.
use pyre_check.AnalysisDirectory.Merging.{merge_directories}
use pyre_check.Texts.{ends_with}
use pyre_check.Base.{List, [], ◌∷◌, Bool, true, String, if◌then◌else◌, ◌==◌, ◌≡◌, refl}

abbrev paths : String → List String
paths directory =
    if directory == "first"
    then "first/__init__.py" ∷ "first/a.py" ∷ []
    else "second/__init__.py" ∷ "second/a.py" ∷ []

abbrev relative : String → String → String
relative path directory =
    if path == "first/a.py" then "a.py" else if path == "second/a.py" then "a.py" else "__init__.py"

abbrev as_it_is : String → String
as_it_is path = path

abbrev regular : String → Bool
regular path = true

abbrev empty : String → Bool
empty path = path == "first/__init__.py"

merged_test :
    merge_directories paths relative as_it_is regular empty ("first" ∷ "second" ∷ []) []
    ≡ ("a.py", "first/a.py") ∷ ("__init__.py", "second/__init__.py") ∷ []
unfolding merge_directories ends_with
merged_test = refl
