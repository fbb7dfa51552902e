-- ===== src/Frames/Tests.antt =====
-- Two chunks that cut a line, and the theorem about them.
use Prim.Native.String.{◌++◌}
use herdr_web_broker.Common.{
  ℕ, ◌≡◌, refl, String, Option, some, none, List, [], ◌∷◌, map, nat_eq, str_eq, if◌then◌else◌,
}
use herdr_web_broker.Frames.{Decoder, frames, scan, push, buffer}
use herdr_web_broker.Frames.Chunks.{Pushes, joined_bytes, push_chunks-concat}

abbrev parse : String → Option String
parse s = if str_eq s "{" then none else some s

abbrev trim : String → String
trim s = s

abbrev left : Decoder
left = record { buf = "3"; max_buf_bytes = 8 }

abbrev midway : Decoder
midway = record { buf = "2"; max_buf_bytes = 8 }

abbrev start : Decoder
start = record { buf = ""; max_buf_bytes = 8 }

-- Bytes of texts in ASCII: a newline, the digits that the tests use, and what is broken.
abbrev letter : ℕ → String
letter b =
    if nat_eq b 10 then "\n" else if nat_eq b 49 then "1" else if nat_eq b 50 then "2" else "3"

abbrev decode : List ℕ → String
decode [] = ""
decode (b ∷ bytes) = letter b ++ decode bytes

abbrev first_part : List ℕ
first_part = 49 ∷ 10 ∷ 50 ∷ []

abbrev second_part : List ℕ
second_part = 50 ∷ 10 ∷ 10 ∷ 51 ∷ []

cut :
    Pushes parse trim decode start
      (map buffer (first_part ∷ second_part ∷ []))
      ("1" ∷ "22" ∷ [])
      left
unfolding push scan
cut =
    (("1" ∷ []), ("22" ∷ []), midway, refl, (("22" ∷ []), [], left, refl, (refl, refl), refl), refl)

push_chunks-concat_example :
    push parse trim decode start (buffer (joined_bytes parse trim (first_part ∷ second_part ∷ [])))
    ≡ (frames ("1" ∷ "22" ∷ []), left)
push_chunks-concat_example =
    push_chunks-concat parse trim decode 8 first_part (second_part ∷ []) ("1" ∷ "22" ∷ []) left refl
      cut
