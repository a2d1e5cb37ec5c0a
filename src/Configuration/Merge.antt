-- ===== src/Configuration/Merge.antt =====
-- merge_partial_configurations (client/configuration.py).
pub mod Laws
use pyre_check.Base.{
  ◌>>=◌, [], ◌∷◌, ◌++◌, List, refl, ◌≡◌, some, none, Option, true, false, Bool, arith, String, ◌==◌,
  ap, ok, err, Result, inl, inr,
}
use pyre_check.Configuration.Elements.{Checked, SearchPathElement, cannot_override}
use pyre_check.Configuration.Partial.{PartialConfiguration}

abbrev pub overwrite_base {ℓ} : {A : Type ℓ} → Option A → Option A → Option A
overwrite_base base none = base
overwrite_base base (some value) = some value

abbrev pub prepend_base {ℓ} : {A : Type ℓ} → List A → List A → List A
prepend_base base override = override ++ base

abbrev pub raise_when_overridden {ℓ} :
    {A : Type ℓ} → Option A → Option A → String → Checked (Option A)
raise_when_overridden none override name = ok override
raise_when_overridden (some value) none name = ok (some value)
raise_when_overridden (some value) (some other) name = err (cannot_override name)

-- Every field but the two that may not be overridden, whose values are given.
unfoldable pub merge_fields :
    PartialConfiguration
    → PartialConfiguration
    → Option (List SearchPathElement)
    → Option (List String)
    → PartialConfiguration
merge_fields base override source_directories targets = record {
  autocomplete = overwrite_base base.autocomplete override.autocomplete;
  binary = overwrite_base base.binary override.binary;
  buck_builder_binary = overwrite_base base.buck_builder_binary override.buck_builder_binary;
  disabled = overwrite_base base.disabled override.disabled;
  do_not_ignore_all_errors_in =
      prepend_base base.do_not_ignore_all_errors_in override.do_not_ignore_all_errors_in;
  dot_pyre_directory = overwrite_base base.dot_pyre_directory override.dot_pyre_directory;
  excludes = prepend_base base.excludes override.excludes;
  extensions = prepend_base base.extensions override.extensions;
  file_hash = overwrite_base base.file_hash override.file_hash;
  formatter = overwrite_base base.formatter override.formatter;
  ignore_all_errors = prepend_base base.ignore_all_errors override.ignore_all_errors;
  ignore_infer = prepend_base base.ignore_infer override.ignore_infer;
  isolation_prefix = overwrite_base base.isolation_prefix override.isolation_prefix;
  logger = overwrite_base base.logger override.logger;
  number_of_workers = overwrite_base base.number_of_workers override.number_of_workers;
  other_critical_files = prepend_base base.other_critical_files override.other_critical_files;
  search_path = prepend_base base.search_path override.search_path;
  source_directories = source_directories;
  strict = overwrite_base base.strict override.strict;
  taint_models_path = prepend_base base.taint_models_path override.taint_models_path;
  targets = targets;
  typeshed = overwrite_base base.typeshed override.typeshed;
  use_buck_builder = overwrite_base base.use_buck_builder override.use_buck_builder;
  use_buck_source_database =
      overwrite_base base.use_buck_source_database override.use_buck_source_database;
  version_hash = overwrite_base base.version_hash override.version_hash;
}

unfoldable pub merge_partial_configurations :
    PartialConfiguration → PartialConfiguration → Checked PartialConfiguration
unfolding merge_fields
merge_partial_configurations base override = do
  source_directories ←
      raise_when_overridden base.source_directories override.source_directories "source_directories"
  targets ← raise_when_overridden base.targets override.targets "targets"
  ok (merge_fields base override source_directories targets)
