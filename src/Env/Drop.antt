-- ===== src/Env/Drop.antt =====
-- The lines of `writeDropFile` of src/env-registry.ts, which a shell sources.
pub mod Sourced
use Prim.Native.Char.{code}
use Prim.Native.String.{String, [], ◌∷◌, ◌++◌}
use herdr_web_broker.Common.{ℕ, Bool, true, false, nat_eq, if◌then◌else◌}
use herdr_web_broker.Common.Dict.{Dict}
use mathlib.Core.List.{List}
use mathlib.Core.List

-- `value.replaceAll("'", "'\\''")`
pub escape : String → String
escape [] = []
escape (c ∷ s) = if nat_eq (code c) 39 then "'\\''" ++ escape s else c ∷ escape s

-- One line of the drop file.
pub export_line : String × String → String
unfolding escape
export_line entry = "export " ++ (entry.0 ++ ("='" ++ (escape entry.1 ++ "'")))

-- `lines + "\n"`: the lines joined by a newline, and one more at the end.
pub drop_file : Dict String → String
unfolding export_line
drop_file List.[] = "\n"
drop_file (List.◌∷◌ entry List.[]) = export_line entry ++ "\n"
drop_file (List.◌∷◌ entry (List.◌∷◌ next rest)) =
    export_line entry ++ ("\n" ++ drop_file (List.◌∷◌ next rest))
