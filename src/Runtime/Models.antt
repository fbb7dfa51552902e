-- ===== src/Runtime/Models.antt =====
-- `ModelRegistry` of src/model-registry.ts. `replace_all` is `template.replaceAll("{model}", model)`.
use mathlib.Core.Option
use Prim.Native.Char.{nul}
use Prim.Native.String.{◌++◌ as text_append, ◌∷◌ as text_cons}
use herdr_web_broker.Common.{
  ℕ, ◌≡◌, refl, ap, ◌∙◌, String, ◌&&◌, Option, some, none, List, [], ◌∷◌, map, find, filter, str_eq,
  or_option, if◌then◌else◌, arith,
}
use herdr_web_broker.Common.Dict.{Dict, lookup, insert, values, lookup-insert}
use herdr_web_broker.Common.Dict.Distinct.{insert_all}

pub data Source : Type 0 where
  builtin config : Source

pub record ModelInfo : Type 0 where
  pub kind : String
  pub id : String
  pub label : Option String
  pub context_window : Option ℕ
  pub max_output : Option ℕ
  pub notes : Option String
  pub source : Source

abbrev row : String → String → String → ℕ → ℕ → ModelInfo
row kind id label context_window max_output = record {
  kind = kind;
  id = id;
  label = some label;
  context_window = some context_window;
  max_output = some max_output;
  notes = none;
  source = builtin;
}

abbrev pub builtin_catalog : List ModelInfo
builtin_catalog =
    row "copilot" "gpt-5" "GPT-5" 128000 64000
    ∷ row "copilot" "gpt-5-mini" "GPT-5 mini" 128000 32000
    ∷ row "copilot" "claude-sonnet-4.5" "Claude Sonnet 4.5" 200000 64000
    ∷ row "claude" "opus" "Claude Opus" 200000 32000
    ∷ record (row "claude" "sonnet" "Claude Sonnet" 200000 64000) {
      notes = some "1M context available in beta";
    }
    ∷ row "claude" "haiku" "Claude Haiku" 200000 64000
    ∷ row "codex" "gpt-5-codex" "GPT-5 Codex" 272000 128000
    ∷ row "codex" "gpt-5" "GPT-5" 272000 128000
    ∷ []

abbrev pub builtin_switch : Dict String
builtin_switch =
    ("copilot", "/model {model}") ∷ ("claude", "/model {model}") ∷ ("codex", "/model {model}") ∷ []

pub record ModelRegistry : Type 0 where
  pub catalog : List ModelInfo
  pub switch : Dict String

-- The kind and the id, with a U+0000 between them.
abbrev pub model_key : ModelInfo → String
model_key m = text_append m.kind (text_cons nul m.id)

abbrev pub keyed : List ModelInfo → List (String × ModelInfo)
keyed = map (λ m. (model_key m, m))

abbrev pub from_config : ModelInfo → ModelInfo
from_config m = record m { source = config }

-- The two loops of the constructor: the builtin rows, then those of the configuration.
unfoldable pub merged : List ModelInfo → Dict ModelInfo
merged rows = insert_all (insert_all [] (keyed builtin_catalog)) (keyed (map from_config rows))

unfoldable pub new : List ModelInfo → List (String × String) → ModelRegistry
new rows templates = record {
  catalog = values (merged rows);
  switch = insert_all builtin_switch templates;
}

unfoldable pub list : Option String → ModelRegistry → List ModelInfo
list none r = r.catalog
list (some kind) r = filter (λ m. str_eq m.kind kind) r.catalog

unfoldable pub find_model : String → String → ModelRegistry → Option ModelInfo
find_model kind id r = find (λ m. str_eq m.kind kind && str_eq m.id id) r.catalog

unfoldable pub switch_command :
    (String → String → String) → String → String → ModelRegistry → Option String
switch_command replace_all kind model r =
    Option.map (λ template. replace_all template model) (lookup kind r.switch)

-- The last entry of a key.
abbrev pub last_of : {V : Type 0} → String → List (String × V) → Option V
last_of key [] = none
last_of key ((k, v) ∷ entries) =
    or_option (last_of key entries) (if str_eq k key then some v else none)

lookup-insert_all :
    {V : Type 0} (key : String) (d : Dict V) (entries : List (String × V))
    → lookup key (insert_all d entries) ≡ or_option (last_of key entries) (lookup key d)
unfolding insert_all
lookup-insert_all key d [] = refl
lookup-insert_all key d ((k, v) ∷ entries) =
    lookup-insert_all key (insert k v d) entries ∙ ground (arith, lookup-insert k key v d)

or_option-none : {A : Type 0} (o : Option A) → or_option o none ≡ o
or_option-none none = refl
or_option-none (some a) = refl

written_twice :
    {V : Type 0} (key : String) (first second : List (String × V))
    → lookup key (insert_all (insert_all [] first) second)
      ≡ or_option (last_of key second) (last_of key first)
unfolding lookup
written_twice key first second =
    lookup-insert_all key (insert_all [] first) second
    ∙ ap (or_option (last_of key second))
        (lookup-insert_all key [] first ∙ or_option-none (last_of key first))

-- Of each key the catalog has the last row that the configuration gives it, and otherwise the builtin
-- row; a kind's command is rendered from its last configured template, and otherwise the builtin one.
pub switch_command-last_of :
    (rows : List ModelInfo) (templates : List (String × String))
    (replace_all : String → String → String) (key kind model : String)
    → (lookup key (merged rows)
        ≡ or_option
            (last_of key (keyed (map from_config rows)))
            (last_of key (keyed builtin_catalog)))
      × (switch_command replace_all kind model (new rows templates)
          ≡ Option.map
              (λ template. replace_all template model)
              (or_option (last_of kind templates) (lookup kind builtin_switch)))
unfolding merged new switch_command
switch_command-last_of rows templates replace_all key kind model = (
  written_twice key (keyed builtin_catalog) (keyed (map from_config rows)),
  ap (Option.map (λ template. replace_all template model))
      (lookup-insert_all kind builtin_switch templates),
)
