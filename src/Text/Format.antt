-- ===== src/Text/Format.antt =====
-- Formatted output of sys/string.c.
use model_lib.Base.{
  ℕ, zero, suc, ◌+◌, ◌-◌, ◌*◌, ◌/◌, ◌%◌, ◌^◌, Bool, ◌&&◌, ◌||◌, Option, none, some, List, [], ◌∷◌,
  ◌++◌, ltb, leb, ◌==◌, if◌then◌else◌, length, replicate,
}
use model_lib.Text.{head}

-- The digit that the first loop of `format_int` writes.
abbrev pub digit : ℕ → ℕ
digit d = if ltb d 10 then 48 + d else 97 + d - 10

-- That loop, which writes from the end of its buffer, with the rounds left.
unfoldable pub int_digits : ℕ → ℕ → ℕ → List ℕ → List ℕ
int_digits zero val base buf = buf
int_digits (suc left) val base buf =
    let rest = int_digits left (val / base) base (digit (val % base) ∷ buf) in
    if val / base == 0 then digit (val % base) ∷ buf else rest

-- `format_int`. A number below 2 ^ 64 has no more than 64 digits; the buffer has room for 40, which is
-- enough for the bases that vgprintf uses.
unfoldable pub format_int : ℕ → ℕ → Bool → ℕ → List ℕ
unfolding int_digits
format_int val base zpad len =
    let digits = int_digits 64 val base [] in
    replicate (len - length digits) (if zpad then 48 else 32) ++ digits

-- `format_str`; a null pointer prints as NULL.
unfoldable pub format_str : Option (List ℕ) → ℕ → List ℕ
format_str none len = 78 ∷ 85 ∷ 76 ∷ 76 ∷ replicate (len - 4) 32
format_str (some s) len = s ++ replicate (len - length s) 32

unfoldable pub format_char : ℕ → ℕ → List ℕ
format_char c len = replicate ((if len == 0 then 1 else len) - 1) 32 ++ (c ∷ [])

-- An argument of vgprintf: a number, as a 64-bit pattern, or a string.
pub data Arg : Type 0 where
  num : ℕ → Arg
  text : Option (List ℕ) → Arg

-- The next argument as a number and as a string; to take one of the wrong kind is undefined.
abbrev pub num_arg : List Arg → ℕ
num_arg [] = 0
num_arg (num v ∷ args) = v
num_arg (text s ∷ args) = 0

abbrev pub text_arg : List Arg → Option (List ℕ)
text_arg [] = none
text_arg (num v ∷ args) = none
text_arg (text s ∷ args) = s

abbrev pub rest_args : List Arg → List Arg
rest_args [] = []
rest_args (a ∷ args) = args

-- The width, and the number of `l`s.
unfoldable pub parse_width : List ℕ → ℕ → List ℕ × ℕ
parse_width [] len = ([], len)
parse_width (c ∷ p) len =
    let rest = parse_width p ((10 * len + (c - 48)) % 2 ^ 32) in
    if leb 48 c && leb c 57 then rest else (c ∷ p, len)

unfoldable pub count_l : List ℕ → ℕ → List ℕ × ℕ
count_l [] lcnt = ([], lcnt)
count_l (c ∷ p) lcnt = let rest = count_l p (lcnt + 1) in if c == 108 then rest else (c ∷ p, lcnt)

-- `z` and `j` stand for 64 bits, `h` for nothing.
unfoldable pub parse_size : List ℕ × ℕ → List ℕ × ℕ
parse_size ([], lcnt) = ([], lcnt)
parse_size (c ∷ p, lcnt) =
    if (c == 122) || (c == 106) then (p, 2) else if c == 104 then (p, lcnt) else (c ∷ p, lcnt)

-- A signed number of 32 or 64 bits, printed.
unfoldable pub format_signed : ℕ → ℕ → Bool → ℕ → List ℕ
unfolding format_int
format_signed v lcnt zpad len =
    let wide = ltb 0 lcnt in
    let negative = if wide then leb (2 ^ 63) v else leb (2 ^ 31) (v % 2 ^ 32) in
    let size = if wide then 2 ^ 64 - v else 2 ^ 32 - v % 2 ^ 32 in
    if negative
    then 45 ∷ format_int size 10 zpad (if ltb 0 len then len - 1 else len)
    else format_int (if wide then v else v % 2 ^ 32) 10 zpad len

-- The switch on the specifier: what is put, and the arguments left.
unfoldable pub format_spec : ℕ → ℕ → Bool → ℕ → List Arg → List ℕ × List Arg
unfolding format_signed format_int format_str format_char
format_spec c lcnt zpad len args =
    let v = num_arg args in
    let u = if ltb 0 lcnt then v else v % 2 ^ 32 in
    let more = rest_args args in
    if (c == 100) || (c == 105)
    then (format_signed v lcnt zpad len, more)
    else if c == 117
    then (format_int u 10 zpad len, more)
    else if c == 120
    then (format_int u 16 zpad len, more)
    else if c == 115
    then (format_str (text_arg args) len, more)
    else if c == 99
    then (format_char (v % 256) len, more)
    else if c == 112
    then (48 ∷ 120 ∷ format_int v 16 zpad len, more)
    else (37 ∷ (if ltb c 32 || leb 127 c then 63 else c) ∷ [], args)

-- What stands behind a `%`, parsed: the specifier and what is left, `lcnt`, `zpad` and `len`.
abbrev pub tail : List ℕ → List ℕ
tail [] = []
tail (c ∷ p) = p

-- The loop of `vgprintf`, with the chars left as rounds.
unfoldable pub print_loop : ℕ → List ℕ → List Arg → List ℕ
unfolding parse_width count_l parse_size format_spec
print_loop zero fmt args = []
print_loop (suc left) [] args = []
print_loop (suc left) (c ∷ p) args =
    let w = parse_width p 0 in
    let l = parse_size (count_l w.0 0) in
    let out = format_spec (head l.0) l.1 (head p == 48) w.1 args in
    let spec = print_loop left (tail l.0) out.1 in
    let plain = print_loop left p args in if c == 37 then out.0 ++ spec else c ∷ plain

-- `vgprintf`: each round takes a char or more.
unfoldable pub vgprintf : List ℕ → List Arg → List ℕ
unfolding print_loop
vgprintf fmt args = print_loop (length fmt) fmt args

-- `vsnprintf_putc` on the bytes written so far and the room left.
unfoldable pub vsnprintf_putc : List ℕ × ℕ → ℕ → List ℕ × ℕ
vsnprintf_putc (buf, rem) c = if leb rem 1 then (buf, rem) else (buf ++ (c ∷ []), rem - 1)

unfoldable pub put_all : List ℕ × ℕ → List ℕ → List ℕ × ℕ
unfolding vsnprintf_putc
put_all s [] = s
put_all s (c ∷ out) = put_all (vsnprintf_putc s c) out

-- `vsnprintf`: the bytes written into the buffer, and the result.
unfoldable pub vsnprintf : ℕ → List ℕ → List Arg → List ℕ × ℕ
unfolding vgprintf put_all
vsnprintf bufsz fmt args =
    let out = vgprintf fmt args in
    let s = put_all ([], bufsz) out in
    if s.1 == 0 then (s.0, length out) else (s.0 ++ (0 ∷ []), length out + 1)
