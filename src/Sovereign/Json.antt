-- ===== src/Sovereign/Json.antt =====
-- src/sovereign/crypto.ts: `canonicalize`, with the parts of `JSON.stringify` that it uses, and the
-- tests of texts that the regular expressions of src/sovereign make.
use Prim.Native.Char.{Char, code}
use Prim.Native.String.{◌++◌, slice}
use gstdbot.Common.{
  ℕ, zero, suc, ◌+◌, ◌-◌, ◌*◌, ◌/◌, ◌%◌, ltb, leb, eqb, String, Bool, false, ◌&&◌, ◌||◌,
  if◌then◌else◌, Option, none, some, List, [], ◌∷◌, all, length, sort, str_lt,
}
use gstdbot.Sovereign.Envelope.{
  Json, undefined, null, boolean, number, other_number, not_finite, text, array, object, Items, nil,
  item, Fields, end, field,
}

abbrev pub codes : String → List ℕ
codes String.[] = []
codes (String.◌∷◌ c s) = code c ∷ codes s

-- `length` of a JavaScript string: its UTF-16 code units.
unfoldable pub js_length : String → ℕ
js_length String.[] = 0
js_length (String.◌∷◌ c s) = (if ltb (code c) 0x10000 then 1 else 2) + js_length s

is_digit : ℕ → Bool
is_digit c = leb b'0' c && leb c b'9'

is_lower : ℕ → Bool
is_lower c = leb b'a' c && leb c b'z'

is_hex_digit : ℕ → Bool
unfolding is_digit
is_hex_digit c = is_digit c || leb b'a' c && leb c b'f'

-- `/^[0-9a-f]{n}$/`
unfoldable pub is_hex : ℕ → String → Bool
unfolding is_hex_digit
is_hex n s = eqb (length (codes s)) n && all is_hex_digit (codes s)

-- `/^\d{1,30}$/`, and the number that the digits write.
unfoldable pub is_amount : String → Bool
unfolding is_digit
is_amount s = leb 1 (length (codes s)) && leb (length (codes s)) 30 && all is_digit (codes s)

value_from : ℕ → List ℕ → ℕ
value_from n [] = n
value_from n (c ∷ cs) = value_from (10 * n + (c - b'0')) cs

unfoldable pub amount : String → ℕ
unfolding value_from
amount s = value_from 0 (codes s)

-- `[a-z0-9][a-z0-9._-]{0,60}`
is_name_head : ℕ → Bool
unfolding is_lower is_digit
is_name_head c = is_lower c || is_digit c

is_name_tail : ℕ → Bool
unfolding is_name_head
is_name_tail c = is_name_head c || eqb c b'.' || eqb c b'_' || eqb c b'-'

is_package_part : List ℕ → Bool
unfolding is_name_head is_name_tail
is_package_part [] = false
is_package_part (c ∷ cs) = is_name_head c && leb (length cs) 60 && all is_name_tail cs

-- The text up to the first slash, and what follows it.
before_slash : List ℕ → List ℕ
before_slash [] = []
before_slash (c ∷ cs) = if eqb c b'/' then [] else c ∷ before_slash cs

after_slash : List ℕ → Option (List ℕ)
after_slash [] = none
after_slash (c ∷ cs) = if eqb c b'/' then some cs else after_slash cs

is_package_codes : List ℕ → Bool
unfolding is_package_part before_slash after_slash
is_package_codes [] = false
is_package_codes (c ∷ cs) =
    if eqb c b'@'
    then is_package_part (before_slash cs)
      && elim (after_slash cs) [ none ↦ false | some rest ↦ is_package_part rest ]
    else is_package_part (c ∷ cs)

-- `/^(@[a-z0-9][a-z0-9._-]{0,60}\/)?[a-z0-9][a-z0-9._-]{0,60}$/`
unfoldable pub is_package : String → Bool
unfolding is_package_codes
is_package s = is_package_codes (codes s)

digit : ℕ → String
digit n = slice "0123456789" n (n + 1)

-- The fuel is the number itself: it has no more digits than that.
digits : ℕ → ℕ → String → String
digits zero n rest = rest
digits (suc f) n rest =
    let more = digits f (n / 10) (digit (n % 10) ++ rest) in if eqb n 0 then rest else more

unfoldable pub decimal : ℕ → String
unfolding digit digits
decimal n = if eqb n 0 then "0" else digits n n ""

hex_digit : ℕ → String
hex_digit n = slice "0123456789abcdef" n (n + 1)

abbrev keep : Char → String
keep c = String.◌∷◌ c String.[]

escape : Char → String
unfolding hex_digit
escape c =
    if eqb (code c) 34
    then "\\\""
    else if eqb (code c) 92
    then "\\\\"
    else if eqb (code c) 8
    then "\\b"
    else if eqb (code c) 12
    then "\\f"
    else if eqb (code c) 10
    then "\\n"
    else if eqb (code c) 13
    then "\\r"
    else if eqb (code c) 9
    then "\\t"
    else if ltb (code c) 32
    then "\\u00" ++ hex_digit (code c / 16) ++ hex_digit (code c % 16)
    else keep c

escape_all : String → String
unfolding escape
escape_all String.[] = ""
escape_all (String.◌∷◌ c s) = escape c ++ escape_all s

-- `JSON.stringify` of a text.
unfoldable pub quote : String → String
unfolding escape_all
quote s = "\"" ++ escape_all s ++ "\""

join : List String → String
join [] = ""
join (s ∷ []) = s
join (s ∷ t ∷ l) = s ++ "," ++ join (t ∷ l)

-- `none` is a thrown error: a number that is not finite.
abbrev wrap : String → String → Option (List String) → Option String
wrap left right none = none
wrap left right (some parts) = some (left ++ join parts ++ right)

abbrev and_then : Option String → Option (List String) → Option (List String)
and_then none rest = none
and_then (some s) none = none
and_then (some s) (some l) = some (s ∷ l)

abbrev key_lt : String × Option String → String × Option String → Bool
key_lt a b = str_lt a.0 b.0

entries : List (String × Option String) → Option (List String)
unfolding quote
entries [] = some []
entries ((k, none) ∷ l) = none
entries ((k, some v) ∷ l) = and_then (some (quote k ++ ":" ++ v)) (entries l)

unfoldable mutual
  unfolding decimal quote join entries

  pub canonicalize : Json → Option String
  canonicalize undefined = some "null"
  canonicalize null = some "null"
  canonicalize (boolean b) = some (if b then "true" else "false")
  canonicalize (number n) = some (decimal n)
  canonicalize (other_number s) = some s
  canonicalize not_finite = none
  canonicalize (text s) = some (quote s)
  canonicalize (array xs) = wrap "[" "]" (canonicalize_items xs)
  canonicalize (object fs) = wrap "{" "}" (entries (sort key_lt (canonicalize_fields fs)))

  pub canonicalize_items : Items → Option (List String)
  canonicalize_items nil = some []
  canonicalize_items (item x xs) = and_then (canonicalize x) (canonicalize_items xs)

  -- The fields that are not undefined, each with its canonical text.
  pub canonicalize_fields : Fields → List (String × Option String)
  canonicalize_fields end = []
  canonicalize_fields (field k v fs) =
      let rest = canonicalize_fields fs in
      let more = (k, canonicalize v) ∷ canonicalize_fields fs in
      elim v [ undefined ↦ rest | _ ↦ more ]
