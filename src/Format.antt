-- ===== src/Format.antt =====
-- Formatted output: jos-lab4/lib/printfmt.c. What is printed is the list of the characters that go to
-- putch, in order. An int is a 32-bit word, and the arguments are the words that va_arg reads; where
-- they or the fuel run out, the result is `none`.
pub mod Buffer
pub mod Pieces
pub mod Rendering
use junior_os.Base.{
  ℕ, zero, suc, ◌+◌, ◌-◌, ◌*◌, ◌%◌, ◌^◌, Bool, true, false, not, ◌&&◌, ◌||◌, Option, none, some,
  List, [], ◌∷◌, ◌++◌, ◌==◌, ltb, leb, if◌then◌else◌, update,
}
use junior_os.Machine.{word, add32, sub32}
use junior_os.Strings.{Memory, strnlen}
use junior_os.Numbers.{pads, printnum}

-- Where the program holds its own strings: "(null)", "error %d", "%s" and the table of messages, in
-- which 0 is NULL.
pub record Texts : Type 0 where
  pub null_text : ℕ
  pub error_format : ℕ
  pub string_format : ℕ
  pub error_string : ℕ → ℕ

pub record Flags : Type 0 where
  pub padc : ℕ
  pub width : ℕ
  pub precision : ℕ
  pub lflag : ℕ
  pub altflag : Bool

abbrev pub no_flags : Flags
no_flags = record { padc = 32; width = word - 1; precision = word - 1; lflag = 0; altflag = false }

-- What one pass of a switch leads to: the end; more output, with or without an escape that is still
-- open; or a call of printfmt, and what comes after it.
pub data Action : Type 0 where
  finished : Action
  go_on : (out : List ℕ) (open_flags : Option Flags) (fmt : ℕ) (args : List ℕ) → Action
  call : (inner : ℕ) (inner_args : List ℕ) (fmt : ℕ) (args : List ℕ) → Action
  stuck : Action

abbrev pub is_negative : ℕ → Bool
is_negative w = leb 0x80000000 w

-- How often a loop `for (; width > 0; width--)` runs.
abbrev pub positive : ℕ → ℕ
positive w = if is_negative w then 0 else w

text_step : Memory → ℕ → List ℕ → Action
text_step mem fmt args =
    if mem fmt == 37
    then go_on [] (some no_flags) (fmt + 1) args
    else if mem fmt == 0
    then finished
    else go_on (mem fmt ∷ []) none (fmt + 1) args

-- The digits of a width or a precision, from `ch` on.
read_number : ℕ → Memory → ℕ → ℕ → ℕ → Option (ℕ × ℕ)
read_number zero mem ch fmt precision = none
read_number (suc fuel) mem ch fmt precision =
    let next = sub32 (add32 (precision * 10 % word) ch) 48 in
    let rest = read_number fuel mem (mem fmt) (fmt + 1) next in
    if ltb (mem fmt) 48 || ltb 57 (mem fmt) then some (next, fmt) else rest

process_precision : Flags → ℕ → Flags
process_precision flags n =
    if is_negative flags.width
    then record flags { width = n; precision = word - 1 }
    else record flags { precision = n }

width_field : Flags → List ℕ → Option (ℕ × ℕ) → Action
unfolding process_precision
width_field flags args none = stuck
width_field flags args (some (n, fmt)) = go_on [] (some (process_precision flags n)) fmt args

star_field : Flags → ℕ → List ℕ → Action
unfolding process_precision
star_field flags fmt [] = stuck
star_field flags fmt (n ∷ args) = go_on [] (some (process_precision flags n)) fmt args

getuint : ℕ → List ℕ → Option (ℕ × List ℕ)
getuint lflag [] = none
getuint lflag (low ∷ []) = if ltb lflag 2 then some (low, []) else none
getuint lflag (low ∷ high ∷ args) =
    if ltb lflag 2 then some (low, high ∷ args) else some (low + high * word, args)

-- A word as a long long.
abbrev pub extended : ℕ → ℕ
extended low = if is_negative low then low + (2 ^ 64 - word) else low

getint : ℕ → List ℕ → Option (ℕ × List ℕ)
getint lflag [] = none
getint lflag (low ∷ []) = if ltb lflag 2 then some (extended low, []) else none
getint lflag (low ∷ high ∷ args) =
    if ltb lflag 2 then some (extended low, high ∷ args) else some (low + high * word, args)

printed : List ℕ → Option (List ℕ) → ℕ → List ℕ → Action
printed before none fmt args = stuck
printed before (some out) fmt args = go_on (before ++ out) none fmt args

number : Flags → ℕ → List ℕ → ℕ → Option (ℕ × List ℕ) → Action
unfolding printed
number flags base before fmt none = stuck
number flags base before fmt (some (num, args)) =
    printed before (printnum 64 num base (positive flags.width) flags.padc) fmt args

signed_number : Flags → ℕ → Option (ℕ × List ℕ) → Action
unfolding number
signed_number flags fmt none = stuck
signed_number flags fmt (some (num, args)) =
    if leb (2 ^ 63) num
    then number flags 10 (45 ∷ []) fmt (some (2 ^ 64 - num, args))
    else number flags 10 [] fmt (some (num, args))

-- `char` is signed.
abbrev pub signed_char : ℕ → ℕ
signed_char b = if ltb b 128 then b else b + (word - 256)

abbrev pub shown : Bool → ℕ → ℕ
shown altflag b = if altflag && (ltb b 32 || ltb 126 b) then 63 else signed_char b

then_char : ℕ → Option (List ℕ × ℕ) → Option (List ℕ × ℕ)
then_char ch none = none
then_char ch (some (out, width)) = some (ch ∷ out, width)

-- The characters of a string up to the precision, and the width that is left.
put_chars : ℕ → Memory → Bool → ℕ → ℕ → ℕ → Option (List ℕ × ℕ)
unfolding then_char
put_chars zero mem altflag p precision width = none
put_chars (suc fuel) mem altflag p precision width =
    let less = if is_negative precision then precision else sub32 precision 1 in
    let rest = put_chars fuel mem altflag (p + 1) less (sub32 width 1) in
    if mem p == 0 || not (is_negative precision) && is_negative less
    then some ([], width)
    else then_char (shown altflag (mem p)) rest

pad_behind : List ℕ → ℕ → List ℕ → Option (List ℕ × ℕ) → Action
pad_behind before fmt args none = stuck
pad_behind before fmt args (some (out, width)) =
    go_on (before ++ (out ++ pads (positive width) 32)) none fmt args

-- The string at `p`, which is not NULL.
string : ℕ → Memory → Flags → ℕ → ℕ → List ℕ → Action
unfolding put_chars pad_behind
string fuel mem flags p fmt args =
    let left = sub32 flags.width (strnlen mem p flags.precision) in
    if ltb 0 (positive flags.width) && not (flags.padc == 45)
    then pad_behind (pads (positive left) flags.padc) fmt args
        (put_chars fuel mem flags.altflag p flags.precision (if is_negative left then left else 0))
    else pad_behind [] fmt args (put_chars fuel mem flags.altflag p flags.precision flags.width)

string_field : Texts → ℕ → Memory → Flags → ℕ → List ℕ → Action
unfolding string
string_field texts fuel mem flags fmt [] = stuck
string_field texts fuel mem flags fmt (p ∷ args) =
    string fuel mem flags (if p == 0 then texts.null_text else p) fmt args

char_field : ℕ → List ℕ → Action
char_field fmt [] = stuck
char_field fmt (c ∷ args) = go_on (c ∷ []) none fmt args

abbrev pub maxerror : ℕ
maxerror = 9

error_message : Texts → ℕ → ℕ → List ℕ → Action
error_message texts err fmt args =
    if not (is_negative err) && leb maxerror err || texts.error_string err == 0
    then call texts.error_format (err ∷ []) fmt args
    else call texts.string_format (texts.error_string err ∷ []) fmt args

error_field : Texts → ℕ → List ℕ → Action
unfolding error_message
error_field texts fmt [] = stuck
error_field texts fmt (err ∷ args) =
    error_message texts (if is_negative err then sub32 0 err else err) fmt args

-- `for (fmt--; fmt[-1] != '%'; fmt--)`
rewind : Memory → ℕ → ℕ
rewind mem zero = zero
rewind mem (suc a) = if mem a == 37 then suc a else rewind mem a

-- A conversion, after its flags.
conversion : Texts → ℕ → Memory → Flags → ℕ → List ℕ → Action
unfolding getuint getint number signed_number string_field char_field error_field rewind
conversion texts fuel mem flags fmt args =
    if mem fmt == 99
    then char_field (fmt + 1) args
    else if mem fmt == 101
    then error_field texts (fmt + 1) args
    else if mem fmt == 115
    then string_field texts fuel mem flags (fmt + 1) args
    else if mem fmt == 100
    then signed_number flags (fmt + 1) (getint flags.lflag args)
    else if mem fmt == 117
    then number flags 10 [] (fmt + 1) (getuint flags.lflag args)
    else if mem fmt == 111
    then number flags 8 [] (fmt + 1) (getuint flags.lflag args)
    else if mem fmt == 112
    then number flags 16 (48 ∷ 120 ∷ []) (fmt + 1) (getuint 0 args)
    else if mem fmt == 120
    then number flags 16 [] (fmt + 1) (getuint flags.lflag args)
    else if mem fmt == 37
    then go_on (37 ∷ []) none (fmt + 1) args
    else go_on (37 ∷ []) none (rewind mem fmt) args

-- One pass of the switch on an escape.
escape_step : Texts → ℕ → Memory → Flags → ℕ → List ℕ → Action
unfolding read_number width_field star_field conversion
escape_step texts fuel mem flags fmt args =
    if mem fmt == 45
    then go_on [] (some (record flags { padc = 45 })) (fmt + 1) args
    else if mem fmt == 48
    then go_on [] (some (record flags { padc = 48 })) (fmt + 1) args
    else if leb 49 (mem fmt) && leb (mem fmt) 57
    then width_field flags args (read_number fuel mem (mem fmt) (fmt + 1) 0)
    else if mem fmt == 42
    then star_field flags (fmt + 1) args
    else if mem fmt == 46
    then go_on [] (some (record flags { width = positive flags.width })) (fmt + 1) args
    else if mem fmt == 35
    then go_on [] (some (record flags { altflag = true })) (fmt + 1) args
    else if mem fmt == 108
    then go_on [] (some (record flags { lflag = flags.lflag + 1 })) (fmt + 1) args
    else conversion texts fuel mem flags fmt args

pub next_action : Texts → ℕ → Memory → Option Flags → ℕ → List ℕ → Action
unfolding text_step escape_step
next_action texts fuel mem none fmt args = text_step mem fmt args
next_action texts fuel mem (some flags) fmt args = escape_step texts fuel mem flags fmt args

joined : List ℕ → Option (List ℕ) → Option (List ℕ)
joined before none = none
joined before (some out) = some (before ++ out)

both : Option (List ℕ) → Option (List ℕ) → Option (List ℕ)
unfolding joined
both none second = none
both (some out) second = joined out second

-- An action, with `further` for the passes that follow.
carry_out : (Option Flags → ℕ → List ℕ → Option (List ℕ)) → Action → Option (List ℕ)
unfolding both
carry_out further finished = some []
carry_out further (go_on out open_flags fmt args) = joined out (further open_flags fmt args)
carry_out further (call inner inner_args fmt args) =
    both (further none inner inner_args) (further none fmt args)
carry_out further stuck = none

format : Texts → ℕ → Memory → Option Flags → ℕ → List ℕ → Option (List ℕ)
unfolding next_action carry_out
format texts zero mem open_flags fmt args = none
format texts (suc fuel) mem open_flags fmt args =
    carry_out (format texts fuel mem) (next_action texts fuel mem open_flags fmt args)

unfoldable pub vprintfmt : Texts → ℕ → Memory → ℕ → List ℕ → Option (List ℕ)
unfolding format
vprintfmt texts fuel mem fmt args = format texts fuel mem none fmt args
