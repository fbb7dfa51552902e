-- ===== src/Frames/Chunks.antt =====
-- src/ndjson.ts: how a stream is cut into chunks, between characters, does not matter.
use Prim.Native.Char.{Char}
use Prim.Native.String.{String, [], ◌∷◌, ◌++◌, len}
use Prim.Native.String.append
use mathlib.Core.List.{
  List, ◌++◌ as list_append, append_assoc as list_append_assoc, append-nil as list_append-nil,
}
use text.Mathlib.TextLemmas.{append_assoc, append-nil}
use herdr_web_broker.Common.{
  ℕ, map, ◌≡◌, refl, ◌∙◌, sym, ap, subst, Bool, true, false, Option, some, none, ltb, str_eq,
  if◌then◌else◌, Bool-cases, inl, inr,
}
use herdr_web_broker.Frames.{
  Failure, Result, frames, throws, Decoder, is_newline, prepend, parsed, take_line, scan, capped,
  push_text, Chunk, buffer, chunk_text, push,
}

abbrev append_frames : {V : Type 0} → List V → Result V × String → Result V × String
append_frames vs (frames ws, last) = (frames (list_append vs ws), last)
append_frames vs (throws e, last) = (throws e, last)

append_frames-nil : {V : Type 0} (r : Result V × String) → append_frames List.[] r ≡ r
append_frames-nil (frames ws, last) = refl
append_frames-nil (throws e, last) = refl

frames_of : {V : Type 0} → Result V → List V
frames_of (frames vs) = vs
frames_of (throws e) = List.[]

throws_frames : {V : Type 0} {e : Failure} {vs : List V} → throws e ≡ frames vs → ⊥
throws_frames h = cc

module _ {V : Type 0} (parse : String → Option V) (trim : String → String) where
  -- What comes of a text before more text, from what comes of it by itself.
  abbrev joined : Result V × String → String → Result V × String
  joined (frames vs, rest) more = append_frames vs (scan parse trim rest more)
  joined (throws e, rest) more = (throws e, rest ++ more)

  append_frames-prepend :
      (v : V) (vs : List V) (r : Result V × String)
      → append_frames (List.◌∷◌ v vs) r ≡ prepend parse trim v (append_frames vs r)
  append_frames-prepend v vs (frames ws, last) = refl
  append_frames-prepend v vs (throws e, last) = refl

  joined-parsed :
      (o : Option V) (text more : String) (r : Result V × String)
      → joined (parsed parse trim o text r) more
        ≡ parsed parse trim o (text ++ more) (joined r more)
  joined-parsed none text more r = refl
  joined-parsed (some v) text more (frames vs, rest) = append_frames-prepend v vs _
  joined-parsed (some v) text more (throws e, rest) = refl

  joined-take_line :
      (line text more : String) (r : Result V × String)
      → joined (take_line parse trim line text r) more
        ≡ take_line parse trim line (text ++ more) (joined r more)
  joined-take_line line text more r = elim (Bool-cases (str_eq (trim line) "")) [
    | inl blank ↦ rw blank refl
    | inr full ↦ rw full (joined-parsed (parse (trim line)) text more r)
  ]

  if-joined :
      (ends : Bool) (line text more : String) (r : Result V × String)
      → joined (if ends then take_line parse trim line text r else r) more
        ≡ (if ends then take_line parse trim line (text ++ more) (joined r more) else joined r more)
  if-joined true line text more r = joined-take_line line text more r
  if-joined false line text more r = refl

  scan-append :
      (s t line : String) → scan parse trim line (s ++ t) ≡ joined (scan parse trim line s) t
  unfolding scan
  scan-append [] t line =
      ap (scan parse trim line) (append.nil t) ∙ sym (append_frames-nil (scan parse trim line t))
  scan-append (c ∷ s) t line =
      let next = if is_newline c then [] else line ++ (c ∷ []) in
      ap (scan parse trim line) (append.cons c s t)
      ∙ ap (λ r. if is_newline c then take_line parse trim line (s ++ t) r else r)
          (scan-append s t next)
      ∙ sym (if-joined (is_newline c) line s t (scan parse trim next s))

  -- The text of a line that is not complete.
  abbrev IsPartial : String → Type 0
  IsPartial line = scan parse trim [] line ≡ (frames List.[], line)

  scan_partial : (b t : String) → IsPartial b → scan parse trim [] (b ++ t) ≡ scan parse trim b t
  scan_partial b t p =
      scan-append b t [] ∙ ap (λ r. joined r t) p ∙ append_frames-nil (scan parse trim b t)

  line_goes_on :
      (line : String) (c : Char)
      → is_newline c ≡ false
      → IsPartial line
      → IsPartial (line ++ (c ∷ []))
  unfolding scan
  line_goes_on line c inside p = scan_partial line (c ∷ []) p ∙ rw inside refl

  -- What is left in the buffer is a line that is not complete.
  abbrev IsFine : Result V × String → Type 0
  IsFine (frames vs, rest) = IsPartial rest
  IsFine (throws e, rest) = Unit

  prepend-IsFine : (v : V) (r : Result V × String) → IsFine r → IsFine (prepend parse trim v r)
  prepend-IsFine v (frames vs, rest) h = h
  prepend-IsFine v (throws e, rest) h = h

  parsed-IsFine :
      (o : Option V) (text : String) (r : Result V × String)
      → IsFine r
      → IsFine (parsed parse trim o text r)
  parsed-IsFine none text r h = tt
  parsed-IsFine (some v) text r h = prepend-IsFine v r h

  if-IsFine :
      (b : Bool) (r q : Result V × String)
      → (b ≡ true → IsFine r)
      → (b ≡ false → IsFine q)
      → IsFine (if b then r else q)
  if-IsFine true r q h k = h refl
  if-IsFine false r q h k = k refl

  scan-IsFine : (s line : String) → IsPartial line → IsFine (scan parse trim line s)
  unfolding scan
  scan-IsFine [] line p = p
  scan-IsFine (c ∷ s) line p =
      let next = if is_newline c then [] else line ++ (c ∷ []) in
      let later = scan-IsFine s next (next-IsPartial (is_newline c) refl) in
      if-IsFine (is_newline c) _ _
        (λ ends.
          if-IsFine (str_eq (trim line) "") _ _ (λ blank. later)
            (λ full. parsed-IsFine (parse (trim line)) s _ later))
        (λ inside. later)
    where
      next-IsPartial :
          (b : Bool) → is_newline c ≡ b → IsPartial (if b then [] else line ++ (c ∷ []))
      next-IsPartial true e = refl
      next-IsPartial false e = line_goes_on line c e p

  fine_frames :
      (r : Result V × String) (vs : List V) (b : String)
      → r ≡ (frames vs, b)
      → IsFine r
      → IsPartial b
  fine_frames r vs b e h = subst IsFine e h

  capped-frames :
      (max : ℕ) (r : Result V × String) (vs : List V) (d : Decoder)
      → capped parse trim max r ≡ (frames vs, d)
      → (r ≡ (frames vs, d.buf)) × (d.max_buf_bytes ≡ max)
  unfolding frames_of
  capped-frames max (throws e, rest) vs d h = absurd (throws_frames (ap (λ x. x.0) h))
  capped-frames max (frames ws, rest) vs d h = elim (Bool-cases (ltb max (len rest))) [
    | inl over ↦ absurd (throws_frames (ap (λ x. x.0) (rw over at h)))
    | inr within ↦
        let k = rw within at h in
        (λ i. (frames (frames_of (k i).0), (k i).1.buf), ap (λ x. x.1.max_buf_bytes) (sym k))
  ]

  capped-append :
      (max : ℕ) (r : Result V × String) (vs ws : List V) (f : Decoder)
      → capped parse trim max r ≡ (frames ws, f)
      → capped parse trim max (append_frames vs r) ≡ (frames (list_append vs ws), f)
  unfolding frames_of
  capped-append max (throws e, rest) vs ws f h = absurd (throws_frames (ap (λ x. x.0) h))
  capped-append max (frames us, rest) vs ws f h = elim (Bool-cases (ltb max (len rest))) [
    | inl over ↦ absurd (throws_frames (ap (λ x. x.0) (rw over at h)))
    | inr within ↦
        rw within (ap (λ x. (frames (list_append vs (frames_of x.0)), x.1)) (rw within at h))
  ]

  abbrev pub IsSettled : Decoder → Type 0
  IsSettled d = scan parse trim [] d.buf ≡ (frames List.[], d.buf)

  push-append :
      (d e f : Decoder) (s t : String) (vs ws : List V)
      → IsSettled d
      → push_text parse trim d s ≡ (frames vs, e)
      → push_text parse trim e t ≡ (frames ws, f)
      → (push_text parse trim d (s ++ t) ≡ (frames (list_append vs ws), f)) × IsSettled e
  unfolding push_text scan
  push-append d e f s t vs ws p h k =
      let (first, same) = capped-frames d.max_buf_bytes (scan parse trim [] (d.buf ++ s)) vs e h in
      let settled = fine_frames _ vs e.buf first (scan-IsFine (d.buf ++ s) [] refl) in
      let whole : scan parse trim [] (d.buf ++ (s ++ t))
          ≡ append_frames vs (scan parse trim [] (e.buf ++ t)) =
        ap (scan parse trim []) (sym (append_assoc d.buf s t))
        ∙ scan-append (d.buf ++ s) t []
        ∙ ap (λ r. joined r t) first
        ∙ ap (append_frames vs) (sym (scan_partial e.buf t settled)) in
      (
        ap (capped parse trim d.max_buf_bytes) whole
            ∙ capped-append d.max_buf_bytes (scan parse trim [] (e.buf ++ t)) vs ws f (
                subst (λ m. capped parse trim m (scan parse trim [] (e.buf ++ t)) ≡ (frames ws, f))
                  same k),
        settled,
      )

  -- The chunks pushed in turn, each taken.
  abbrev TakesTexts : Decoder → List String → List V → Decoder → Type 0
  TakesTexts d List.[] vs f = (vs ≡ List.[]) × (d ≡ f)
  TakesTexts d (List.◌∷◌ chunk chunks) vs f =
      (us : List V) × (ws : List V) × (e : Decoder) × (push_text parse trim d chunk
        ≡ (frames us, e))
      × TakesTexts e chunks ws f
      × (vs ≡ list_append us ws)

  abbrev pub concat : List String → String
  concat List.[] = []
  concat (List.◌∷◌ chunk chunks) = chunk ++ concat chunks

  push-concat :
      (d e f : Decoder) (s : String) (chunks : List String) (us ws : List V)
      → IsSettled d
      → push_text parse trim d s ≡ (frames us, e)
      → TakesTexts e chunks ws f
      → push_text parse trim d (s ++ concat chunks) ≡ (frames (list_append us ws), f)
  push-concat d e f s List.[] us ws p h (none_left, same) =
      ap (push_text parse trim d) (append-nil s)
      ∙ h
      ∙ (λ i. (frames (sym (list_append-nil us) i), same i))
      ∙ ap (λ x. (frames (list_append us x), f)) (sym none_left)
  push-concat d e f s (List.◌∷◌ chunk chunks) us ws p h (vs, rest, next, taken, later, split) =
      let both = push-append d e next s chunk us vs p h taken in
      ap (push_text parse trim d) (sym (append_assoc s chunk (concat chunks)))
      ∙ push-concat d next f (s ++ chunk) chunks (list_append us vs) rest p both.0 later
      ∙ ap (λ x. (frames x, f)) (list_append_assoc us vs rest ∙ ap (list_append us) (sym split))

  text_chunks-concat :
      (max : ℕ) (chunk : String) (chunks : List String) (vs : List V) (f : Decoder)
      → TakesTexts (record { buf = []; max_buf_bytes = max }) (List.◌∷◌ chunk chunks) vs f
      → push_text parse trim (record { buf = []; max_buf_bytes = max }) (chunk ++ concat chunks)
        ≡ (frames vs, f)
  unfolding scan
  text_chunks-concat max chunk chunks vs f (us, ws, e, taken, later, split) =
      push-concat (record { buf = []; max_buf_bytes = max }) e f chunk chunks us ws refl taken later
      ∙ ap (λ x. (frames x, f)) (sym split)

  -- The chunks pushed in turn, each taken.
  abbrev pub Pushes : (List ℕ → String) → Decoder → List Chunk → List V → Decoder → Type 0
  Pushes decode d List.[] vs f = (vs ≡ List.[]) × (d ≡ f)
  Pushes decode d (List.◌∷◌ chunk chunks) vs f =
      (us : List V) × (ws : List V) × (e : Decoder) × (push parse trim decode d chunk
        ≡ (frames us, e))
      × Pushes decode e chunks ws f
      × (vs ≡ list_append us ws)

  Pushes-TakesTexts :
      (decode : List ℕ → String) (d : Decoder) (chunks : List Chunk) (vs : List V) (f : Decoder)
      → Pushes decode d chunks vs f
      → TakesTexts d (map (chunk_text decode) chunks) vs f
  unfolding push
  Pushes-TakesTexts decode d List.[] vs f h = h
  Pushes-TakesTexts decode d (List.◌∷◌ chunk chunks) vs f (us, ws, e, taken, later, split) =
      (us, ws, e, taken, Pushes-TakesTexts decode e chunks ws f later, split)

  -- All the bytes of buffers.
  abbrev pub joined_bytes : List (List ℕ) → List ℕ
  joined_bytes List.[] = List.[]
  joined_bytes (List.◌∷◌ bytes buffers) = list_append bytes (joined_bytes buffers)

  -- If a new decoder takes Buffers in turn that are cut between characters, so that decoding each by itself
  -- gives the text of all their bytes, then it takes all their bytes as one Buffer too, with the same frames
  -- in the same order and the same text left in its buffer.
  pub push_chunks-concat :
      (decode : List ℕ → String) (max : ℕ) (bytes : List ℕ) (buffers : List (List ℕ)) (vs : List V)
      (f : Decoder)
      → decode (joined_bytes (List.◌∷◌ bytes buffers))
        ≡ concat (map decode (List.◌∷◌ bytes buffers))
      → Pushes decode
          (record { buf = []; max_buf_bytes = max })
          (map buffer (List.◌∷◌ bytes buffers))
          vs
          f
      → push parse trim decode
          (record { buf = []; max_buf_bytes = max })
          (buffer (joined_bytes (List.◌∷◌ bytes buffers)))
        ≡ (frames vs, f)
  unfolding push
  push_chunks-concat decode max bytes buffers vs f whole h =
      let start : Decoder = record { buf = []; max_buf_bytes = max } in
      ap (push_text parse trim start) whole
      ∙ text_chunks-concat max (decode bytes) (map decode buffers) vs f (
          subst (λ ts. TakesTexts start ts vs f) (texts_of decode (List.◌∷◌ bytes buffers))
            (Pushes-TakesTexts decode start (map buffer (List.◌∷◌ bytes buffers)) vs f h))
    where
      texts_of :
          (decode : List ℕ → String) (bs : List (List ℕ))
          → map (chunk_text decode) (map buffer bs) ≡ map decode bs
      texts_of decode List.[] = refl
      texts_of decode (List.◌∷◌ b bs) = ap (List.◌∷◌ (decode b)) (texts_of decode bs)
