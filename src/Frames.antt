-- ===== src/Frames.antt =====
-- `NdjsonDecoder` of src/ndjson.ts: one frame per line. `parse` is `JSON.parse`, `none` where it throws,
-- `trim` is `String.prototype.trim`, and `decode` is what `Buffer.prototype.toString` makes of bytes.
pub mod Chunks
mod Tests
use Prim.Native.Char.{Char, code}
use Prim.Native.String.{String, [], ◌∷◌, ◌++◌, len}
use mathlib.Core.List.{List}
use mathlib.Core.List
use herdr_web_broker.Common.{
  ℕ, Bool, true, false, Option, some, none, nat_eq, ltb, str_eq, if◌then◌else◌,
}

pub data Failure : Type 0 where
  malformed too_long : Failure

pub data Result (V : Type 0) : Type 0 where
  frames : List V → Result V
  throws : Failure → Result V

pub record Decoder : Type 0 where
  pub buf : String
  pub max_buf_bytes : ℕ

-- A chunk of a stream: a `Buffer`, which is its bytes, or a text.
pub data Chunk : Type 0 where
  buffer : List ℕ → Chunk
  string : String → Chunk

-- `chunk.toString()`, where `decode` decodes all the bytes of a `Buffer` as UTF-8.
abbrev pub chunk_text : (List ℕ → String) → Chunk → String
chunk_text decode (buffer bytes) = decode bytes
chunk_text decode (string s) = s

abbrev pub is_newline : Char → Bool
is_newline c = nat_eq (code c) 10

module _ {V : Type 0} (parse : String → Option V) (trim : String → String) where
  abbrev pub prepend : V → Result V × String → Result V × String
  prepend v (frames vs, rest) = (frames (List.◌∷◌ v vs), rest)
  prepend v (throws e, rest) = (throws e, rest)

  abbrev pub parsed : Option V → String → Result V × String → Result V × String
  parsed none text later = (throws malformed, text)
  parsed (some v) text later = prepend v later

  -- A line that is complete, with the text behind it and what that text gives: an empty line is no
  -- frame, and one that does not parse ends the loop.
  abbrev pub take_line : String → String → Result V × String → Result V × String
  take_line line text later =
      if str_eq (trim line) "" then later else parsed (parse (trim line)) text later

  -- The loop over the lines of the buffer; `line` is what was read of the current one. The result is
  -- with what is left in the buffer.
  unfoldable pub scan : String → String → Result V × String
  scan line [] = (frames List.[], line)
  scan line (c ∷ text) =
      let ends = is_newline c in
      let later = scan (if ends then [] else line ++ (c ∷ [])) text in
      if ends then take_line line text later else later

  abbrev pub capped : ℕ → Result V × String → Result V × Decoder
  capped max (throws e, rest) = (throws e, record { buf = rest; max_buf_bytes = max })
  capped max (frames vs, rest) = (
    if ltb max (len rest) then throws too_long else frames vs,
    record { buf = rest; max_buf_bytes = max },
  )

  -- `push` of a chunk that is text already.
  unfoldable pub push_text : Decoder → String → Result V × Decoder
  push_text d chunk = capped d.max_buf_bytes (scan [] (d.buf ++ chunk))

  -- `push(chunk)`
  unfoldable pub push : (List ℕ → String) → Decoder → Chunk → Result V × Decoder
  unfolding push_text
  push decode d chunk = push_text d (chunk_text decode chunk)
