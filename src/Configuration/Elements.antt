-- ===== src/Configuration/Elements.antt =====
-- The elements of search paths and of the list of extensions (client/configuration.py), with
-- `os.path.join` on texts, and the exceptions that reading a configuration may raise.
use Prim.Native.String
use pyre_check.Base.{
  ◌>>=◌, [], ◌∷◌, List, some, none, Option, false, Bool, String, ◌==◌, ok, err, Result,
  if◌then◌else◌, ◌&&◌, ◌||◌, map,
}
use pyre_check.Filesystem.{expand_relative_path}
use pyre_check.Json.{Fields, Json, bool, contains, get, string, dict, as_string?}
use pyre_check.PathLib.{is_slash, slash}

-- InvalidConfiguration by its cause, whose text is not modelled further. `not_a_dict` is the
-- AttributeError or TypeError of a JSON document that is no object. `untyped_value` is not raised where
-- it stands here: it is the bound of the model, for a search path element whose root, subdirectory or
-- package name is no text. The code stores such a value without a look at its type, and fails only
-- where it is used as a text; a document with one is not followed any further.
pub data ConfigurationError : Type 0 where
  invalid_json invalid_search_path invalid_extension unreadable not_a_dict untyped_value
        nested_local :
      ConfigurationError
  wrong_type : String → ConfigurationError
  cannot_override : String → ConfigurationError

abbrev pub Checked {ℓ} : Type ℓ → Type ℓ
Checked A = Result ConfigurationError A

abbrev ends_with_slash : String → Bool
ends_with_slash String.[] = false
ends_with_slash (String.◌∷◌ c String.[]) = is_slash c
ends_with_slash (String.◌∷◌ c s) = ends_with_slash s

starts_with_slash : String → Bool
starts_with_slash String.[] = false
starts_with_slash (String.◌∷◌ c s) = is_slash c

-- `os.path.join(base, other)`
unfoldable pub os_path_join : String → String → String
unfolding starts_with_slash
os_path_join base other =
    if starts_with_slash other
    then other
    else if base == "" || ends_with_slash base
    then String.◌++◌ base other
    else String.◌++◌ base (String.◌∷◌ slash other)

-- `path[2:]` if `path.startswith("//")`.
unfoldable pub below_global : String → Option String
below_global (String.◌∷◌ c (String.◌∷◌ d s)) = if is_slash c && is_slash d then some s else none
below_global _ = none

module _ (home : String → String) where
  unfoldable pub expand_below : String → String → Option String → String
  expand_below root path none = path
  expand_below root path (some rest) = expand_relative_path home root rest

  unfoldable pub expand_global_root : String → String → String
  unfolding expand_below
  expand_global_root path global_root = expand_below global_root path (below_global path)

  unfoldable pub unless_below : String → String → Option String → String
  unless_below root path none = expand_relative_path home root path
  unless_below root path (some _) = path

  unfoldable pub expand_relative_root : String → String → String
  unfolding unless_below
  expand_relative_root path relative_root = unless_below relative_root path (below_global path)

pub data SearchPathElement : Type 0 where
  simple : (root : String) → SearchPathElement
  subdirectory : (root name : String) → SearchPathElement
  site_package : (site_root package_name : String) → SearchPathElement

unfoldable pub element_path : SearchPathElement → String
element_path (simple root) = root
element_path (subdirectory root name) = os_path_join root name
element_path (site_package site_root package_name) = os_path_join site_root package_name

unfoldable pub command_line_argument : SearchPathElement → String
command_line_argument (simple root) = root
command_line_argument (subdirectory root name) = String.◌++◌ root (String.◌++◌ "$" name)
command_line_argument (site_package site_root package_name) =
    String.◌++◌ site_root (String.◌++◌ "$" package_name)

-- `expand_global_root` and `expand_relative_root` of an element, by what they do to a root. A site
-- package takes no part.
unfoldable pub with_root : (String → String) → SearchPathElement → SearchPathElement
with_root expand (simple root) = simple (expand root)
with_root expand (subdirectory root name) = subdirectory (expand root) name
with_root expand (site_package site_root package_name) = site_package site_root package_name

pub record ExtensionElement : Type 0 where
  pub suffix : String
  pub include_suffix_in_module_qualifier : Bool

unfoldable pub extension_argument : ExtensionElement → String
extension_argument e =
    String.◌++◌ e.suffix
      (if e.include_suffix_in_module_qualifier then "$include_suffix_in_module_qualifier" else "")

-- A value that is no Boolean leaves the default.
included : Json → Bool
included (bool b) = b
included _ = false

extension_of : Fields → Option String → Checked ExtensionElement
unfolding included
extension_of json none = err invalid_extension
extension_of json (some suffix) = ok (record {
  suffix = suffix;
  include_suffix_in_module_qualifier = included (get "include_suffix_in_module_qualifier" json);
})

unfoldable pub extension_from_json : Json → Checked ExtensionElement
unfolding extension_of
extension_from_json (string s) =
    ok (record { suffix = s; include_suffix_in_module_qualifier = false })
extension_from_json (dict json) = extension_of json (as_string? (get "suffix" json))
extension_from_json _ = err invalid_extension

typed : Json → Checked String
typed (string s) = ok s
typed _ = err untyped_value

search_paths_of_dict : Fields → List String → Checked (List SearchPathElement)
unfolding typed
search_paths_of_dict json site_roots =
    if contains "root" json && contains "subdirectory" json
    then (do
      root ← typed (get "root" json)
      name ← typed (get "subdirectory" json)
      ok (subdirectory root name ∷ []))
    else if contains "site-package" json
    then (do
      package_name ← typed (get "site-package" json)
      ok (map (λ root. site_package root package_name) site_roots))
    else err invalid_search_path

unfoldable pub create_search_paths : Json → List String → Checked (List SearchPathElement)
unfolding search_paths_of_dict
create_search_paths (string s) site_roots = ok (simple s ∷ [])
create_search_paths (dict json) site_roots = search_paths_of_dict json site_roots
create_search_paths _ site_roots = err invalid_search_path
