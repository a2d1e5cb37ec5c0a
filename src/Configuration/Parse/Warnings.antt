-- ===== src/Configuration/Parse/Warnings.antt =====
-- About the warnings of PartialConfiguration.from_string (client/configuration.py).
use pyre_check.Base.{
  [], ◌∷◌, List, refl, ◌≡◌, String, ok, err, Bool, keep, ◌++◌, if◌then◌else◌, map, not, ◌&&◌, ◌||◌,
  arith, sym, ◌∙◌, Bool-cases, ap, eq_iff, inl, inr, Option, ap₂, true, false, some,
}
use pyre_check.Configuration.Parse.{
  Pop, parse_fields, pure, continue, ◌>>>=◌, popped, popped_list, get_or_empty, Warning, among,
  warn_unrecognized, warnings, deprecated_keys, extra_keys, unrecognized, deprecated, checked,
  from_string,
}
use pyre_check.Json.{Fields, Json, remove, get, keys, contains, field, end, contains-remove, dict}
use pyre_check.Configuration.Elements.{Checked}
use pyre_check.Configuration.Partial.{PartialConfiguration}

-- The keys that `from_string` pops, in its order.
abbrev pub consumed_keys : List String
consumed_keys =
    "saved_state" ∷ "dot_pyre_directory" ∷ "search_path" ∷ "source_directories" ∷ "autocomplete"
    ∷ "binary" ∷ "buck_builder_binary" ∷ "disabled" ∷ "do_not_ignore_errors_in" ∷ "exclude"
    ∷ "extensions" ∷ "formatter" ∷ "ignore_all_errors" ∷ "ignore_infer" ∷ "isolation_prefix"
    ∷ "logger" ∷ "workers" ∷ "critical_files" ∷ "strict" ∷ "taint_models_path" ∷ "targets"
    ∷ "typeshed" ∷ "use_buck_builder" ∷ "use_buck_source_database" ∷ "version" ∷ []

abbrev remove_all : List String → Fields → Fields
remove_all [] json = json
remove_all (name ∷ names) json = remove_all names (remove name json)

-- An action that succeeds has popped the names.
record Removes {A : Type 0} (names : List String) (m : Pop A) : Type 0 where
  left : (json : Fields) (a : A) → (m json).0 ≡ ok a → (m json).1 ≡ remove_all names json

Removes-pure : {A : Type 0} (a : A) → Removes [] (pure a)
unfolding pure
Removes-pure a = record { left = λ json b h. refl }

module _ {A B : Type 0} (name : String) (names : List String) (check : Json → Checked A)
    (f : A → Pop B) (rest : (a : A) → Removes names (f a)) where
  continue-Removes :
      (r : Checked A) (json : Fields) (b : B)
      → (continue r f (remove name json)).0 ≡ ok b
      → (continue r f (remove name json)).1 ≡ remove_all (name ∷ names) json
  continue-Removes (ok a) json b h = (rest a).left (remove name json) b h
  continue-Removes (err e) json b h = cc

  Removes-popped : Removes (name ∷ names) (popped name check >>>= f)
  unfolding ◌>>>=◌ popped
  Removes-popped = record { left = λ json. continue-Removes (check (get name json)) json }

  Removes-popped_list : Removes (name ∷ names) (popped_list name check >>>= f)
  unfolding ◌>>>=◌ popped_list
  Removes-popped_list = record {
    left = λ json. continue-Removes (check (get_or_empty name json)) json;
  }

parse_fields-Removes :
    (site_roots : List String) (digest : String)
    → Removes consumed_keys (parse_fields site_roots digest)
unfolding parse_fields
parse_fields-Removes site_roots digest =
    search (Removes-popped, Removes-popped_list, Removes-pure) depth 60

keys-remove :
    (name : String) (json : Fields)
    → keys (remove name json) ≡ keep (λ key. not (among key (name ∷ []))) (keys json)
unfolding keys remove
keys-remove name end = refl
keys-remove name (field key value rest) =
    ground (arith, keys-remove name rest, eq_iff key name, eq_iff name key)

keep-keep {ℓ} :
    {A : Type ℓ} (p q : A → Bool) (xs : List A) → keep p (keep q xs) ≡ keep (λ x. q x && p x) xs
keep-keep p q [] = refl
keep-keep p q (x ∷ xs) = ground (arith, keep-keep p q xs)

keep_agree {ℓ} :
    {A : Type ℓ} (p q : A → Bool) (same : (x : A) → p x ≡ q x) (xs : List A) → keep p xs ≡ keep q xs
keep_agree p q same [] = refl
keep_agree p q same (x ∷ xs) = rw (same x, keep_agree p q same xs)

among-append :
    (key : String) (xs ys : List String) → among key (xs ++ ys) ≡ (among key xs || among key ys)
among-append key [] ys = refl
among-append key (x ∷ xs) ys = ground (arith, among-append key xs ys)

-- Neither one list of keys nor another.
outside : (a b : Bool) → (not a && not b) ≡ not (a || b)
outside a b = ground arith

keep_outside :
    (names others keys : List String)
    → keep (λ key. not (among key others)) (keep (λ key. not (among key names)) keys)
      ≡ keep (λ key. not (among key (names ++ others))) keys
keep_outside names others keys =
    keep-keep (λ key. not (among key others)) (λ key. not (among key names)) keys
    ∙ keep_agree (λ key. not (among key names) && not (among key others))
        (λ key. not (among key (names ++ others)))
        (λ key.
          outside (among key names) (among key others)
          ∙ ap not (sym (among-append key names others)))
        keys

keys-remove_all :
    (names : List String) (json : Fields)
    → keys (remove_all names json) ≡ keep (λ key. not (among key names)) (keys json)
keys-remove_all [] json = sym (keep_all (keys json))
  where
    keep_all : (xs : List String) → keep (λ key. not (among key [])) xs ≡ xs
    keep_all [] = refl
    keep_all (x ∷ xs) = rw (keep_all xs)
keys-remove_all (name ∷ names) json =
    keys-remove_all names (remove name json)
    ∙ ap (keep (λ key. not (among key names))) (keys-remove name json)
    ∙ keep_outside (name ∷ []) names (keys json)

warn_unrecognized-eq :
    (names : List String)
    → warn_unrecognized names ≡ map unrecognized (keep (λ key. not (among key extra_keys)) names)
unfolding warn_unrecognized
warn_unrecognized-eq [] = refl
warn_unrecognized-eq (key ∷ rest) = elim (Bool-cases (among key extra_keys)) [
  | inl e ↦ rw e (warn_unrecognized-eq rest)
  | inr e ↦ rw e (ap (λ l. unrecognized key ∷ l) (warn_unrecognized-eq rest))
]

-- Every key that the loader knows: an option, a deprecated key or an extra key.
abbrev pub known_keys : List String
known_keys = (consumed_keys ++ deprecated_keys) ++ extra_keys

abbrev pub deprecation : Fields → List Warning
deprecation json = if contains "do_not_check" json then deprecated "do_not_check" ∷ [] else []

unrecognized_left :
    (names : List String) (json : Fields)
    → warn_unrecognized (keys (remove "do_not_check" (remove_all names json)))
      ≡ map unrecognized
          (keep (λ key. not (among key ((names ++ deprecated_keys) ++ extra_keys))) (keys json))
unrecognized_left names json =
    let left =
      keys-remove "do_not_check" (remove_all names json)
      ∙ ap (keep (λ key. not (among key deprecated_keys))) (keys-remove_all names json)
      ∙ keep_outside names deprecated_keys (keys json) in
    warn_unrecognized-eq _
    ∙ ap (λ l. map unrecognized (keep (λ key. not (among key extra_keys)) l)) left
    ∙ ap (map unrecognized) (keep_outside (names ++ deprecated_keys) extra_keys (keys json))

contains-remove_all :
    (json : Fields)
    → contains "do_not_check" (remove_all consumed_keys json) ≡ contains "do_not_check" json
contains-remove_all json = simp contains-remove

append_if {ℓ} :
    {A : Type ℓ} (b : Bool) (x : A) (xs : List A)
    → (if b then x ∷ xs else xs) ≡ (if b then x ∷ [] else []) ++ xs
append_if true x xs = refl
append_if false x xs = refl

warnings-remove_all :
    (json : Fields)
    → warnings (remove_all consumed_keys json)
      ≡ deprecation json ++ map unrecognized (keep (λ key. not (among key known_keys)) (keys json))
unfolding warnings
warnings-remove_all json =
    ap₂ (λ b l. if b then deprecated "do_not_check" ∷ l else l) (contains-remove_all json)
      (unrecognized_left consumed_keys json)
    ∙ append_if (contains "do_not_check" json) (deprecated "do_not_check") _

checked_cases :
    (r : Checked PartialConfiguration × Fields) (partial : PartialConfiguration)
    (logged : List Warning)
    → checked r ≡ ok (partial, logged)
    → (r.0 ≡ ok partial) × (logged ≡ warnings r.1)
unfolding checked
checked_cases (ok p, json) partial logged h = (cc, cc)
checked_cases (err e, json) partial logged h = cc

module _ (loads : String → Option Json) (sha1 : String → String) (site_roots : List String) where
  -- When a configuration file is read, the warnings are one for `do_not_check` if the file has that
  -- key, and then one for each key that is no option, deprecated key or extra key, in the file's order.
  pub from_string_warnings :
      (contents : String) (json : Fields) (partial : PartialConfiguration) (logged : List Warning)
      → loads contents ≡ some (dict json)
      → from_string loads sha1 site_roots contents ≡ ok (partial, logged)
      → logged
        ≡ deprecation json
          ++ map unrecognized (keep (λ key. not (among key known_keys)) (keys json))
  unfolding from_string
  from_string_warnings contents json partial logged decoded h =
      let (parsed, said) =
        checked_cases (parse_fields site_roots (sha1 contents) json) partial logged
          (rw decoded at h) in
      said
      ∙ ap warnings ((parse_fields-Removes site_roots (sha1 contents)).left json partial parsed)
      ∙ warnings-remove_all json
