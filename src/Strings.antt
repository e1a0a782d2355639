-- ===== src/Strings.antt =====
-- The methods of Python's `str` that the program calls.
use Prim.Native.Char.{Char, code}
use nadi.Common.{
  ℕ, zero, suc, ◌+◌, String, ◌<>◌, Bool, true, false, not, ◌&&◌, ◌||◌, List, [], ◌∷◌, leb, ltb,
  ◌==◌, nat_eq, string_eq, if◌then◌else◌, ◌-◌, ◌/◌, ◌%◌, ◌<◌, ◌≡◌, Bool-cases, inl, inr, arith,
}

abbrev pub of_char : Char → String
of_char c = String.◌∷◌ c String.[]

-- `len(text)`
abbrev pub text_length : String → ℕ
text_length String.[] = 0
text_length (String.◌∷◌ c s) = suc (text_length s)

-- `len(text.encode())`: the bytes of UTF-8
abbrev pub utf8_bytes : ℕ → ℕ
utf8_bytes c = if ltb c 128 then 1 else if ltb c 2048 then 2 else if ltb c 65536 then 3 else 4

unfoldable pub utf8_size : String → ℕ
utf8_size String.[] = 0
utf8_size (String.◌∷◌ c s) = utf8_bytes (code c) + utf8_size s

-- `text[:n]`
unfoldable pub take_chars : ℕ → String → String
take_chars zero s = String.[]
take_chars (suc n) String.[] = String.[]
take_chars (suc n) (String.◌∷◌ c s) = String.◌∷◌ c (take_chars n s)

-- `text.split(sep)` at a single character
abbrev add_char : Char → List String → List String
add_char c [] = of_char c ∷ []
add_char c (p ∷ ps) = String.◌∷◌ c p ∷ ps

unfoldable pub split_on : ℕ → String → List String
split_on sep String.[] = String.[] ∷ []
split_on sep (String.◌∷◌ c s) =
    let rest = split_on sep s in if code c == sep then String.[] ∷ rest else add_char c rest

-- `sep.join(parts)`
unfoldable pub join_with : String → List String → String
join_with sep [] = String.[]
join_with sep (p ∷ []) = p
join_with sep (p ∷ q ∷ ps) = p <> (sep <> join_with sep (q ∷ ps))

-- The characters at which `str.split()` cuts and which `str.strip()` removes.
abbrev pub is_space : ℕ → Bool
is_space c =
    leb 9 c && leb c 13
    || (leb 28 c && leb c 32
        || (c == 133
            || (c == 160
                || (c == 5760
                    || (leb 8192 c && leb c 8202
                        || (c == 8232
                            || (c == 8233 || (c == 8239 || (c == 8287 || c == 12288)))))))))

abbrev pub begins_word : String → Bool
begins_word String.[] = false
begins_word (String.◌∷◌ c s) = not (is_space (code c))

abbrev pub joined : Char → List String → List String
joined c [] = of_char c ∷ []
joined c (w ∷ ws) = String.◌∷◌ c w ∷ ws

-- `text.split()`
unfoldable pub words : String → List String
words String.[] = []
words (String.◌∷◌ c s) =
    let rest = words s in
    if is_space (code c) then rest else if begins_word s then joined c rest else of_char c ∷ rest

-- `text.strip()` and `text.strip("/")`: the characters that `drop` names go from both ends.
abbrev pub is_empty : String → Bool
is_empty String.[] = true
is_empty (String.◌∷◌ c s) = false

unfoldable pub lstrip : (ℕ → Bool) → String → String
lstrip drop String.[] = String.[]
lstrip drop (String.◌∷◌ c s) = if drop (code c) then lstrip drop s else String.◌∷◌ c s

unfoldable pub rstrip : (ℕ → Bool) → String → String
rstrip drop String.[] = String.[]
rstrip drop (String.◌∷◌ c s) =
    let rest = rstrip drop s in
    if drop (code c) && is_empty rest then String.[] else String.◌∷◌ c rest

unfoldable pub strip : (ℕ → Bool) → String → String
unfolding lstrip rstrip
strip drop s = rstrip drop (lstrip drop s)

-- `text.startswith(prefix)`
abbrev pub has_prefix : String → String → Bool
has_prefix String.[] s = true
has_prefix (String.◌∷◌ a p) String.[] = false
has_prefix (String.◌∷◌ a p) (String.◌∷◌ b s) = code a == code b && has_prefix p s

-- `needle in text`
unfoldable pub occurs : String → String → Bool
occurs needle String.[] = has_prefix needle String.[]
occurs needle (String.◌∷◌ c s) = has_prefix needle (String.◌∷◌ c s) || occurs needle s

-- `text.count(needle)`, for a needle that is not empty: after a find, as many characters are passed
-- over as the needle has left.
unfoldable pub count_from : String → ℕ → String → ℕ
count_from needle skip String.[] = 0
count_from needle (suc skip) (String.◌∷◌ c s) = count_from needle skip s
count_from needle zero (String.◌∷◌ c s) =
    let found = has_prefix needle (String.◌∷◌ c s) in
    let rest = count_from needle (if found then text_length needle - 1 else 0) s in
    if found then suc rest else rest

unfoldable pub count_text : String → String → ℕ
unfolding count_from
count_text needle s = count_from needle 0 s

unfoldable pub drop_chars : ℕ → String → String
drop_chars zero s = s
drop_chars (suc n) String.[] = String.[]
drop_chars (suc n) (String.◌∷◌ c s) = drop_chars n s

-- `text.replace(old, new, 1)`
unfoldable pub replace_first : String → String → String → String
replace_first old new String.[] = if is_empty old then new else String.[]
replace_first old new (String.◌∷◌ c s) =
    if has_prefix old (String.◌∷◌ c s)
    then new <> drop_chars (text_length old) (String.◌∷◌ c s)
    else String.◌∷◌ c (replace_first old new s)

-- `text.replace(old, new)`, for a text `old` that is not empty: the characters of a find are passed over.
unfoldable pub replace_from : String → String → ℕ → String → String
replace_from old new skip String.[] = String.[]
replace_from old new (suc skip) (String.◌∷◌ c s) = replace_from old new skip s
replace_from old new zero (String.◌∷◌ c s) =
    let found = has_prefix old (String.◌∷◌ c s) in
    let rest = replace_from old new (if found then text_length old - 1 else 0) s in
    if found then new <> rest else String.◌∷◌ c rest

unfoldable pub replace_all : String → String → String → String
unfolding replace_from
replace_all old new s = replace_from old new 0 s

-- `str(n)`: the digits before the given rest. A number that is below the fuel has no more digits.
unfoldable pub digit : ℕ → String
unfolding take_chars drop_chars
digit d = take_chars 1 (drop_chars d "0123456789")

unfoldable pub decimal_from : ℕ → ℕ → String → String
decimal_from zero n rest = rest
decimal_from (suc fuel) n rest =
    let more = decimal_from fuel (n / 10) (digit (n % 10) <> rest) in
    if ltb n 10 then digit n <> rest else more

unfoldable pub decimal : ℕ → String
unfolding decimal_from digit
decimal n = decimal_from (suc n) n ""

pub decimal_from_enough :
    (f g n : ℕ) (rest : String) → n < f → n < g → decimal_from f n rest ≡ decimal_from g n rest
unfolding decimal_from
decimal_from_enough zero g n rest h k = absurd (omega arith)
decimal_from_enough (suc f) zero n rest h k = absurd (omega arith)
decimal_from_enough (suc f) (suc g) n rest h k = elim (Bool-cases (ltb n 10)) [
  | inl e ↦ rw e
  | inr e ↦
      rw e (decimal_from_enough f g (n / 10) (digit (n % 10) <> rest) (ground arith) (ground arith))
]
