-- ===== src/Env/Tests.antt =====
-- A drop file that a shell sources, with the theorem about it, and two scopes with one key.
use herdr_web_broker.Common.{◌≡◌, refl, String, true, some, none, [], ◌∷◌, All}
use herdr_web_broker.Common.Dict.{Dict}
use herdr_web_broker.Env.Drop.{drop_file}
use herdr_web_broker.Env.Drop.Sourced.{feed, shell, line_start, exported_by, exported_by-drop_file}
use herdr_web_broker.Env.Registry.{EnvScope, is_name, are_tail, key}

abbrev vars : Dict String
vars = ("TOKEN", "it's $(id)") ∷ ("PORT", "80") ∷ []

vars_named : All (λ e. is_name e.0 ≡ true) vars
unfolding is_name are_tail
vars_named = (refl, (refl, tt))

exported_by-drop_file_example :
    exported_by (feed (some (shell line_start "" "" [])) (drop_file vars)) ≡ some vars
exported_by-drop_file_example = exported_by-drop_file vars vars_named

abbrev anywhere : EnvScope
anywhere = record { kind = none; session = none }

-- A scope that names the kind "*" has the key of the scope that names none.
keys_collide : key "TOKEN" (record { kind = some "*"; session = none }) ≡ key "TOKEN" anywhere
unfolding key
keys_collide = refl
