-- ===== src/Configuration/Relative.antt =====
-- PartialConfiguration.expand_relative_paths (client/configuration.py).
pub mod Laws
use mathlib.Core.Option
use pyre_check.Base.{
  [], ◌∷◌, ◌++◌, List, refl, ◌≡◌, some, none, Option, true, false, Bool, arith, String, ◌==◌, ap,
  ok, err, Result, inl, inr, map,
}
use pyre_check.Configuration.Partial.{PartialConfiguration}
use pyre_check.Filesystem.{expand_relative_path}
use pyre_check.Configuration.Elements.{with_root, expand_relative_root}

module _ (home : String → String) where
  unfoldable pub expand_relative_paths : String → PartialConfiguration → PartialConfiguration
  expand_relative_paths root c =
      let expand = expand_relative_path home root in
      let expand_element = with_root (λ path. expand_relative_root home path root) in
      record c {
        binary = Option.map expand c.binary;
        buck_builder_binary = Option.map expand c.buck_builder_binary;
        do_not_ignore_all_errors_in = map expand c.do_not_ignore_all_errors_in;
        formatter = Option.map expand c.formatter;
        ignore_all_errors = map expand c.ignore_all_errors;
        ignore_infer = map expand c.ignore_infer;
        logger = Option.map expand c.logger;
        other_critical_files = map expand c.other_critical_files;
        search_path = map expand_element c.search_path;
        source_directories = Option.map (map expand_element) c.source_directories;
        taint_models_path = map expand c.taint_models_path;
        typeshed = Option.map expand c.typeshed;
      }
