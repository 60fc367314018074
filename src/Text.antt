-- ===== src/Text.antt =====
-- Texts: the methods of `str` that the program uses.
pub mod Trim
pub mod Numbers
use Prim.Native.Char.{Char, code}
use v2ray_subscription_manag.Prelude.{
  ℕ, ◌+◌, ◌-◌, ◌*◌, Bool, true, false, ◌&&◌, ◌||◌, String, List, [], ◌∷◌, map, Option, none, some,
  any, leb, ◌==◌, if◌then◌else◌, get_elem?, unwrap_or,
}
use v2ray_subscription_manag.Prelude.Order.{codes}

-- `char::is_whitespace`, on the number of a character.
abbrev pub is_whitespace : ℕ → Bool
is_whitespace c =
    (leb 9 c && leb c 13)
    || c == 32
    || c == 133
    || c == 160
    || c == 5760
    || (leb 8192 c && leb c 8202)
    || c == 8232
    || c == 8233
    || c == 8239
    || c == 8287
    || c == 12288

abbrev pub is_empty_text : String → Bool
is_empty_text String.[] = true
is_empty_text (String.◌∷◌ c s) = false

unfoldable pub trim_start : String → String
trim_start String.[] = ""
trim_start (String.◌∷◌ c s) =
    let more = trim_start s in if is_whitespace (code c) then more else String.◌∷◌ c s

unfoldable pub trim_end : String → String
trim_end String.[] = ""
trim_end (String.◌∷◌ c s) =
    let more = trim_end s in
    if is_whitespace (code c) && is_empty_text more then "" else String.◌∷◌ c more

-- `str::trim`
unfoldable pub trim : String → String
unfolding trim_start trim_end
trim s = trim_end (trim_start s)

-- `char::to_ascii_lowercase`
abbrev pub lowercase : ℕ → ℕ
lowercase c = if leb 65 c && leb c 90 then c + 32 else c

abbrev pub same_codes : List ℕ → List ℕ → Bool
same_codes [] [] = true
same_codes [] (d ∷ ds) = false
same_codes (c ∷ cs) [] = false
same_codes (c ∷ cs) (d ∷ ds) = c == d && same_codes cs ds

-- `str::eq_ignore_ascii_case`
unfoldable pub eq_ignore_ascii_case : String → String → Bool
eq_ignore_ascii_case s t = same_codes (map lowercase (codes s)) (map lowercase (codes t))

-- Whether `to_ascii_lowercase` makes the text one of some texts in lower case.
unfoldable pub is_one_of : List String → String → Bool
is_one_of words s = any (λ (word : String). same_codes (map lowercase (codes s)) (codes word)) words

-- The digits of a number that is at most `max`.
unfoldable pub read_digits : ℕ → ℕ → String → Option ℕ
read_digits max value String.[] = some value
read_digits max value (String.◌∷◌ c s) =
    let next = value * 10 + (code c - 48) in
    let more = read_digits max next s in
    if leb 48 (code c) && leb (code c) 57 && leb next max then more else none

-- `str::parse` for an unsigned integer that is at most `max`.
unfoldable pub parse_unsigned : ℕ → String → Option ℕ
parse_unsigned max String.[] = none
parse_unsigned max (String.◌∷◌ c s) =
    let signed = if is_empty_text s then none else read_digits max 0 s in
    let plain = read_digits max 0 (String.◌∷◌ c s) in if code c == 43 then signed else plain

abbrev pub push_front : Char → List String → List String
push_front c [] = String.◌∷◌ c "" ∷ []
push_front c (part ∷ parts) = String.◌∷◌ c part ∷ parts

-- `str::split` at a character.
unfoldable pub split : ℕ → String → List String
split delimiter String.[] = "" ∷ []
split delimiter (String.◌∷◌ c s) =
    let more = split delimiter s in if code c == delimiter then "" ∷ more else push_front c more

-- `str::to_ascii_lowercase`
abbrev pub lower_letters : List Char
lower_letters =
    "a" ∷ "b" ∷ "c" ∷ "d" ∷ "e" ∷ "f" ∷ "g" ∷ "h" ∷ "i" ∷ "j" ∷ "k" ∷ "l" ∷ "m" ∷ "n" ∷ "o" ∷ "p"
    ∷ "q" ∷ "r" ∷ "s" ∷ "t" ∷ "u" ∷ "v" ∷ "w" ∷ "x" ∷ "y" ∷ "z" ∷ []

abbrev pub lower_char : Char → Char
lower_char c =
    if leb 65 (code c) && leb (code c) 90
    then unwrap_or (get_elem? lower_letters (code c - 65)) c
    else c

unfoldable pub to_ascii_lowercase : String → String
to_ascii_lowercase String.[] = ""
to_ascii_lowercase (String.◌∷◌ c s) = String.◌∷◌ (lower_char c) (to_ascii_lowercase s)

-- `str::starts_with`
abbrev pub starts_with : String → String → Bool
starts_with String.[] s = true
starts_with (String.◌∷◌ c p) String.[] = false
starts_with (String.◌∷◌ c p) (String.◌∷◌ d s) = code c == code d && starts_with p s
