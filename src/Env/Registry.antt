-- ===== src/Env/Registry.antt =====
-- `EnvRegistry` of src/env-registry.ts. `now` is the time in ISO form.
pub mod Resolved
use Prim.Native.Char.{Char, code}
use Prim.Native.String.{String, [], ◌∷◌, ◌++◌, len, count}
use mathlib.Core.List.{List, map, ◌++◌ as list_append}
use mathlib.Core.List
use herdr_web_broker.Common.{
  ℕ, all, ◌+◌, Bool, true, false, not, ◌&&◌, ◌||◌, Option, some, none, nat_eq, leb, ltb, opt_eq,
  str_eq, is_some, or_else, if◌then◌else◌,
}
use herdr_web_broker.Common.Dict.{Dict, lookup, insert, remove, values}

pub record EnvScope : Type 0 where
  pub kind : Option String
  pub session : Option String

pub record Entry : Type 0 where
  pub name : String
  pub scope : EnvScope
  pub value : String
  pub set_at : String

pub record Hook : Type 0 where
  pub name : String
  pub scope : EnvScope
  pub command : List String

abbrev is_between : ℕ → ℕ → Char → Bool
is_between a b c = leb a (code c) && leb (code c) b

-- `[A-Z_]` and `[A-Z0-9_]`
abbrev pub is_head : Char → Bool
is_head c = is_between 65 90 c || nat_eq (code c) 95

abbrev pub is_tail : Char → Bool
is_tail c = is_head c || is_between 48 57 c

unfoldable pub are_tail : String → Bool
are_tail [] = true
are_tail (c ∷ s) = is_tail c && are_tail s

-- `NAME_RE`
unfoldable pub is_name : String → Bool
is_name [] = false
is_name (c ∷ s) = is_head c && (are_tail s && leb (count s) 127)

abbrev pub value_cap : ℕ
value_cap = 8192

-- `key(name, scope)`
unfoldable pub key : String → EnvScope → String
key name scope = name ++ (" " ++ (or_else scope.kind "*" ++ (" " ++ or_else scope.session "*")))

-- The source's `x ? x : undefined`, for a text.
abbrev pub truthy : Option String → Option String
truthy none = none
truthy (some s) = if str_eq s "" then none else some s

abbrev pub clean_scope : EnvScope → EnvScope
clean_scope scope = record { kind = truthy scope.kind; session = truthy scope.session }

abbrev pub specificity : EnvScope → ℕ
specificity scope =
    (if is_some (truthy scope.kind) then 2 else 0)
    + (if is_some (truthy scope.session) then 1 else 0)

abbrev is_or_any : Option String → String → Bool
is_or_any none s = true
is_or_any (some t) s = str_eq t s

abbrev pub scope_matches : EnvScope → String → String → Bool
scope_matches scope session kind = is_or_any scope.kind kind && is_or_any scope.session session

pub record EnvRegistry : Type 0 where
  pub enabled : Bool
  pub entries : Dict Entry
  pub hooks : List Hook

pub data Result {ℓ} (A : Type ℓ) : Type ℓ where
  ok : A → Result A
  err : (code : String) → Result A

-- `set(name, value, scope)`
pub set : String → String → EnvScope → String → EnvRegistry → Result EnvRegistry
unfolding key
set name value scope now r =
    if not r.enabled
    then err "env_disabled"
    else if not (is_name name)
    then err "bad_request"
    else if ltb value_cap (len value)
    then err "bad_request"
    else (let clean = clean_scope scope in
        ok (record r {
          entries =
              insert (key name clean)
                (record { name = name; scope = clean; value = value; set_at = now }) r.entries;
        }))

-- `delete(name, scope)`
pub delete : String → EnvScope → EnvRegistry → Result EnvRegistry
unfolding key
delete name scope r =
    let k = key name (clean_scope scope) in
    if not r.enabled
    then err "env_disabled"
    else if is_some (lookup k r.entries)
    then ok (record r { entries = remove k r.entries })
    else err "unknown_env"

-- Whether a candidate takes the place of what is the best so far.
abbrev pub beats : {A : Type 0} → (A → EnvScope) → A → Option A → Bool
beats scope_of a none = true
beats scope_of a (some prev) = ltb (specificity (scope_of prev)) (specificity (scope_of a))

-- The loops of `resolveForSpawn`: the best candidate of each name, over those that are wanted.
unfoldable pub best :
    {A : Type 0} → (A → String) → (A → EnvScope) → (A → Bool) → Dict A → List A → Dict A
best name_of scope_of wanted found List.[] = found
best name_of scope_of wanted found (List.◌∷◌ a rest) =
    let keeps = wanted a && beats scope_of a (lookup (name_of a) found) in
    best name_of scope_of wanted (if keeps then insert (name_of a) a found else found) rest

unfoldable pub best_manual : String → String → EnvRegistry → Dict Entry
best_manual session kind r =
    if r.enabled
    then best (λ e. e.name) (λ e. e.scope) (λ e. scope_matches e.scope session kind) List.[]
        (values r.entries)
    else List.[]

-- A hook that a value set by hand overrides is passed over.
unfoldable pub best_hook : String → String → Dict Entry → EnvRegistry → Dict Hook
best_hook session kind manual r =
    best (λ h. h.name) (λ h. h.scope)
      (λ h. not (is_some (lookup h.name manual)) && scope_matches h.scope session kind) List.[]
      r.hooks

unfoldable pub set_values : Dict Entry → Dict String
set_values List.[] = List.[]
set_values (List.◌∷◌ (name, e) rest) = List.◌∷◌ (name, e.value) (set_values rest)

abbrev pub and_then : Result String → (String → Result (Dict String)) → Result (Dict String)
and_then (ok value) f = f value
and_then (err code) f = err code

-- `await this.#run(hook)` in turn; the first hook that fails ends the call.
unfoldable pub run_hooks : (Hook → Result String) → Dict String → Dict Hook → Result (Dict String)
run_hooks run out List.[] = ok out
run_hooks run out (List.◌∷◌ (name, h) rest) =
    and_then (run h) (λ value. run_hooks run (insert name value out) rest)

-- `resolveForSpawn(session, kind)`
unfoldable pub resolve_for_spawn :
    (Hook → Result String) → String → String → EnvRegistry → Result (Dict String)
unfolding best_manual best_hook
resolve_for_spawn run session kind r =
    let manual = best_manual session kind r in
    run_hooks run (set_values manual) (best_hook session kind manual r)

-- The checks of the constructor: it throws at the first hook without a valid name or a command.
abbrev pub is_hook : Hook → Bool
is_hook h = elim h.command [ List.[] ↦ false | List.◌∷◌ program args ↦ is_name h.name ]

unfoldable pub new : Bool → List Hook → Result EnvRegistry
new enabled hooks =
    if all is_hook hooks
    then ok (record { enabled = enabled; entries = List.[]; hooks = hooks })
    else err "bad_request"

pub data Source : Type 0 where
  manual hook : Source

pub record Listed : Type 0 where
  pub name : String
  pub scope : EnvScope
  pub source : Source
  pub set_at : Option String

abbrev pub list_entry : Entry → Listed
list_entry e = record { name = e.name; scope = e.scope; source = manual; set_at = some e.set_at }

abbrev pub list_hook : Hook → Listed
list_hook h = record { name = h.name; scope = clean_scope h.scope; source = hook; set_at = none }

-- `list()`: no value is in it.
unfoldable pub list : EnvRegistry → Result (List Listed)
list r =
    if r.enabled
    then ok (list_append (map list_entry (values r.entries)) (map list_hook r.hooks))
    else err "env_disabled"
