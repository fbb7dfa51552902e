-- ===== src/Git.antt =====
-- src/git-exec.ts: the git commands that the broker runs. `git` stands for `execFile` of the git binary in
-- a repository: it takes a command's arguments and the state of the repository, and gives the state that
-- the command leaves and its output, or its error. Time limits are the binary's.
pub mod Status
pub mod Verbs
mod Keeps
pub mod Pull
pub mod Discard
mod Tests
use Prim.Native.Char.{Char, code}
use Prim.Native.String as Text
use Prim.Native.String.{String, count}
use herdr_web_broker.Common.{
  Bool, true, false, not, ◌&&◌, ◌||◌, Option, some, none, List, leb, nat_eq, starts_with,
  if◌then◌else◌,
}
use herdr_web_broker.Ops.{Result, ok, throws, fail, Thrown}

-- What runs commands in a repository.
abbrev pub M : Type 0 → Type 0 → Type 0
M R A = R → R × Result A

abbrev pub Git : Type 0 → Type 0
Git R = List String → M R String

abbrev pub pure : {R A : Type 0} → A → M R A
pure a r = (r, ok a)

abbrev pub after : {R A B : Type 0} → R × Result A → (A → M R B) → R × Result B
after (r, ok a) f = f a r
after (r, throws e) f = (r, throws e)

infixl 5 ◌>>=◌ ◌>>◌
abbrev pub ◌>>=◌ : {R A B : Type 0} → M R A → (A → M R B) → M R B
◌>>=◌ m f r = after (m r) f

abbrev pub ◌>>◌ : {R B : Type 0} → M R (Unit {0}) → M R B → M R B
m >> k = m >>= λ _. k

abbrev pub lift : {R A : Type 0} → Result A → M R A
lift a r = (r, a)

abbrev pub rescued : {R A : Type 0} → R × Result A → A → R × Result A
rescued (r, ok a) other = (r, ok a)
rescued (r, throws e) other = (r, ok other)

-- `.catch(() => other)`
abbrev pub catch_with : {R A : Type 0} → M R A → A → M R A
catch_with m other r = rescued (m r) other

abbrev is_between : Char → Char → Char → Bool
is_between a b c = leb (code a) (code c) && leb (code c) (code b)

-- `[A-Za-z0-9._/^~-]`
abbrev pub is_ref_char : Char → Bool
is_ref_char c =
    is_between "A" "Z" c
    || (is_between "a" "z" c
        || (is_between "0" "9" c
            || (nat_eq (code c) 46
                || (nat_eq (code c) 95
                    || (nat_eq (code c) 47
                        || (nat_eq (code c) 94 || (nat_eq (code c) 126 || nat_eq (code c) 45)))))))

unfoldable pub are_ref_chars : String → Bool
are_ref_chars Text.[] = true
are_ref_chars (Text.◌∷◌ c s) = is_ref_char c && are_ref_chars s

-- `validateRef(ref)`
unfoldable pub validate_ref : String → Result (Unit {0})
unfolding are_ref_chars
validate_ref ref =
    if starts_with ref "-" || not (are_ref_chars ref && (leb 1 (count ref) && leb (count ref) 128))
    then fail "bad_request" "base must be a plain git ref"
    else ok tt
