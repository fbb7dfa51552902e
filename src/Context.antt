-- ===== src/Context.antt =====
-- src/context-store.ts: the attachments of a workspace. The directory is `files` with `.meta.json`, read
-- as `{}` where it is missing or does not parse; `now` is the time in ISO form.
pub mod Inline
pub mod Named
mod Tests
use Prim.Native.Char.{Char, code}
use Prim.Native.String as Text
use Prim.Native.String.{String}
use herdr_web_broker.Common.{
  ℕ, Bool, true, false, not, ◌&&◌, ◌||◌, Option, some, none, leb, ltb, nat_eq, is_some, or_else,
  or_option, if◌then◌else◌,
}
use herdr_web_broker.Common.Dict.{Dict, lookup, insert, remove}

pub record ContextMeta : Type 0 where
  pub content_type : String
  pub active : Bool
  pub uploaded_at : String
  pub inline : Option Bool

-- A file's content: its text, its size in bytes, and whether its first 8192 bytes have a zero.
pub record Content : Type 0 where
  pub text : String
  pub size : ℕ
  pub is_binary : Bool

pub record Store : Type 0 where
  pub files : Dict Content
  pub meta : Dict ContextMeta

pub data Result : Type 0 where
  stored : Store → Result
  refused : (code : String) → Result

abbrev pub context_cap_bytes : ℕ
context_cap_bytes = 8388608

abbrev is_between : ℕ → ℕ → Char → Bool
is_between a b c = leb a (code c) && leb (code c) b

-- `[a-zA-Z0-9]` and `[a-zA-Z0-9._ -]`
abbrev pub is_first : Char → Bool
is_first c = is_between 97 122 c || (is_between 65 90 c || is_between 48 57 c)

abbrev pub is_later : Char → Bool
is_later c =
    is_first c
    || (nat_eq (code c) 46 || (nat_eq (code c) 95 || (nat_eq (code c) 32 || nat_eq (code c) 45)))

unfoldable pub are_later : String → Bool
are_later Text.[] = true
are_later (Text.◌∷◌ c s) = is_later c && are_later s

-- `checkName`: the pattern, and at most 128 characters.
unfoldable pub is_plain : String → Bool
is_plain Text.[] = false
is_plain (Text.◌∷◌ c s) = is_first c && (are_later s && leb (Text.count s) 127)

-- `putContext(cwd, name, content, opts)`
pub put_context :
    String → Content → Option String → Option Bool → Option Bool → String → Store → Result
put_context name content content_type active inline now s =
    if not (is_plain name)
    then refused "bad_request"
    else if ltb context_cap_bytes content.size
    then refused "bad_request"
    else stored (record {
      files = insert name content s.files;
      meta =
          insert name
            (record {
              content_type = or_else content_type "application/octet-stream";
              active = or_else active true;
              uploaded_at = now;
              inline = inline;
            })
            s.meta;
    })

-- What `updateContext` makes of the earlier entry; a false `inline` is left out of it.
abbrev keep_true : Option Bool → Option Bool
keep_true (some true) = some true
keep_true _ = none

abbrev pub patched : Option ContextMeta → Option Bool → Option Bool → String → ContextMeta
patched none active inline now = record {
  content_type = "application/octet-stream";
  active = or_else active true;
  uploaded_at = now;
  inline = keep_true inline;
}
patched (some prev) active inline now = record prev {
  active = or_else active prev.active;
  inline = keep_true (or_option inline prev.inline);
}

-- `updateContext(cwd, name, patch)`
pub update_context : String → Option Bool → Option Bool → String → Store → Result
update_context name active inline now s =
    if not (is_plain name)
    then refused "bad_request"
    else if is_some (lookup name s.files)
    then stored
        (record s { meta = insert name (patched (lookup name s.meta) active inline now) s.meta })
    else refused "unknown_context"

-- `deleteContext(cwd, name)`
pub delete_context : String → Store → Result
delete_context name s =
    if not (is_plain name)
    then refused "bad_request"
    else if is_some (lookup name s.files)
    then stored (record { files = remove name s.files; meta = remove name s.meta })
    else refused "unknown_context"
