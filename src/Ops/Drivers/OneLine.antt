-- ===== src/Ops/Drivers/OneLine.antt =====
-- src/workspace-ops.ts: what is typed into a pane is one line.
use Prim.Native.Char.{Char}
use Prim.Native.String as Text
use Prim.Native.String.append
use Prim.Native.String.{String, ◌++◌, count}
use herdr_web_broker.Common.{
  ℕ, ◌≡◌, refl, Bool, true, false, ◌&&◌, ◌||◌, Option, some, none, List, ltb, str_eq, if◌then◌else◌,
  arith, ◌∙◌, ap, subst, Bool-cases, inl, inr,
}
use herdr_web_broker.Common.Text.{trim, trim_start, trim_end, is_space}
use herdr_web_broker.State.Resumable.{truthy}
use herdr_web_broker.Ops.{Result, ok, throws, ◌>>=◌}
use herdr_web_broker.Ops.Panes.{Entry, agent_in_pane}
use herdr_web_broker.Ops.Values.{Value, null, bool, num, text, list, object, Fields, member, str}
use herdr_web_broker.Ops.Drivers.{
  is_control, has_control, is_command, are_command_chars, checked_command, slash_args, slash_text,
  slash,
}

has_control-append : (s t : String) → has_control (s ++ t) ≡ has_control s || has_control t
unfolding has_control
has_control-append Text.[] t = ap has_control (append.nil t)
has_control-append (Text.◌∷◌ c s) t =
    ap has_control (append.cons c s t) ∙ ground (arith, has_control-append s t)

has_control-trim_start : (s : String) → has_control s ≡ false → has_control (trim_start s) ≡ false
unfolding has_control trim_start
has_control-trim_start Text.[] h = refl
has_control-trim_start (Text.◌∷◌ c s) h = ground (arith, has_control-trim_start s, h)

or_false : (a b : Bool) → a || b ≡ false → (a ≡ false) × (b ≡ false)
or_false a b h = ground (arith, h)

kept_or_dropped :
    (drops : Bool) (c : Char) (rest : String)
    → is_control c ≡ false
    → has_control rest ≡ false
    → has_control (if drops then "" else Text.◌∷◌ c rest) ≡ false
unfolding has_control
kept_or_dropped true c rest h k = refl
kept_or_dropped false c rest h k = rw h k

has_control-trim_end : (s : String) → has_control s ≡ false → has_control (trim_end s) ≡ false
unfolding has_control trim_end
has_control-trim_end Text.[] h = refl
has_control-trim_end (Text.◌∷◌ c s) h =
    let parts = or_false (is_control c) (has_control s) h in
    kept_or_dropped (is_space c && str_eq (trim_end s) "") c (trim_end s) parts.0
      (has_control-trim_end s parts.1)

has_control-trim : (s : String) → has_control s ≡ false → has_control (trim s) ≡ false
unfolding trim
has_control-trim s h = has_control-trim_end (trim_start s) (has_control-trim_start s h)

has_control-command : (s : String) → are_command_chars s ≡ true → has_control s ≡ false
unfolding has_control are_command_chars
has_control-command Text.[] h = refl
has_control-command (Text.◌∷◌ c s) h = ground (arith, has_control-command s, h)

is_command-IsOneLine : (s : String) → is_command s ≡ true → has_control s ≡ false
unfolding is_command are_command_chars
is_command-IsOneLine Text.[] h = absurd (cc h)
is_command-IsOneLine (Text.◌∷◌ c s) h = has_control-command (Text.◌∷◌ c s) (ground (arith, h))

ok_inj {ℓ} : {A : Type ℓ} (a b : A) → ok a ≡ ok b → a ≡ b
ok_inj a b h = cc

checked_command-IsOneLine :
    (name command : String) → checked_command name ≡ ok command → has_control command ≡ false
unfolding checked_command
checked_command-IsOneLine name command h = elim (Bool-cases (is_command name)) [
  | inl valid ↦
      subst (λ s. has_control s ≡ false) (ok_inj name command (rw valid at h))
        (is_command-IsOneLine name valid)
  | inr invalid ↦ absurd (cc (rw invalid at h))
]

abbrev AreOneLine : Option String → Type 0
AreOneLine none = Unit
AreOneLine (some args) = has_control args ≡ false

truthy-AreOneLine : (s : String) → has_control s ≡ false → AreOneLine (truthy (some s))
truthy-AreOneLine s h = elim (Bool-cases (str_eq s "")) [
  | inl empty ↦ rw empty tt
  | inr full ↦ rw full h
]

slash_args-AreOneLine :
    (v : Option Value) (args : Option String) → slash_args v ≡ ok args → AreOneLine args
unfolding slash_args
slash_args-AreOneLine none args h = subst AreOneLine (ok_inj none args h) tt
slash_args-AreOneLine (some (text a)) args h =
    elim (Bool-cases (ltb 512 (count a) || has_control a)) [
      | inl bad ↦ absurd (cc (rw bad at h))
      | inr good ↦ subst AreOneLine (ok_inj (truthy (some (trim a))) args (rw good at h)) (
          truthy-AreOneLine (trim a)
            (has_control-trim a (or_false (ltb 512 (count a)) (has_control a) good).1))
    ]
slash_args-AreOneLine (some null) args h = absurd (cc h)
slash_args-AreOneLine (some (bool b)) args h = absurd (cc h)
slash_args-AreOneLine (some (num n)) args h = absurd (cc h)
slash_args-AreOneLine (some (list l)) args h = absurd (cc h)
slash_args-AreOneLine (some (object o)) args h = absurd (cc h)

slash_text-IsOneLine :
    (command : String) (args : Option String)
    → has_control command ≡ false
    → AreOneLine args
    → has_control (slash_text command args) ≡ false
unfolding slash_text has_control
slash_text-IsOneLine command none h k = has_control-append "/" command ∙ h
slash_text-IsOneLine command (some args) h k =
    has_control-append "/" (command ++ (" " ++ args))
    ∙ has_control-append command (" " ++ args)
    ∙ rw (h, has_control-append " " args) k

>>=-cong {ℓ κ} :
    {A : Type ℓ} {B : Type κ} (m : Result A) (f g : A → Result B)
    → ((a : A) → m ≡ ok a → f a ≡ g a)
    → (m >>= f) ≡ (m >>= g)
>>=-cong (ok a) f g h = h a refl
>>=-cong (throws e) f g h = refl

-- No text with a control character is ever typed into a pane as a slash command: it makes no difference
-- what would happen to such texts.
pub slash-IsOneLine :
    (polls : ℕ → Result (List Entry)) (sends other : String → Result (Unit {0})) (pane : String)
    (p : Fields)
    → slash polls sends pane p
      ≡ slash polls (λ t. if has_control t then other t else sends t) pane p
unfolding slash
slash-IsOneLine polls sends other pane p =
    >>=-cong (str (member "command" p) "command") _ _ (λ name _.
      >>=-cong (checked_command name) _ _ (λ command is_checked.
        >>=-cong (slash_args (member "args" p)) _ _ (λ args are_args.
          >>=-cong (agent_in_pane polls pane) _ _ (λ occupant _.
            let plain =
              slash_text-IsOneLine command args (checked_command-IsOneLine name command is_checked)
                (slash_args-AreOneLine (member "args" p) args are_args) in
            rw plain refl))))
