-- ===== src/Billing/Duration.antt =====
-- `parseDayDuration` and `parseHourDuration`, with the parts of packages strings and strconv that
-- they call. A text is the list of its code points.
use Prim.Native.Char.{code}
use cost_ai_grid_poc.Prelude.{
  ℕ, suc, ◌+◌, ◌-◌, ◌*◌, ◌^◌, String, Bool, ◌&&◌, ◌||◌, Option, none, some, List, [], ◌∷◌, leb,
  ◌==◌, if◌then◌else◌,
}
use cost_ai_grid_poc.Prelude.Int.{ℤ, pos, negsuc}

abbrev pub codes : String → List ℕ
codes String.[] = []
codes (String.◌∷◌ c s) = code c ∷ codes s

-- unicode.IsSpace
is_space : ℕ → Bool
is_space c =
    (leb 9 c && leb c 13)
    || c == 32
    || c == 0x85
    || c == 0xA0
    || c == 0x1680
    || (leb 0x2000 c && leb c 0x200a)
    || c == 0x2028
    || c == 0x2029
    || c == 0x202f
    || c == 0x205f
    || c == 0x3000

-- strings.TrimLeft by `is_space`
trim_left : List ℕ → List ℕ
trim_left [] = []
trim_left (c ∷ s) = if is_space c then trim_left s else c ∷ s

cons_trimmed : ℕ → List ℕ → List ℕ
cons_trimmed c [] = if is_space c then [] else c ∷ []
cons_trimmed c (d ∷ t) = c ∷ d ∷ t

-- strings.TrimRight by `is_space`
trim_right : List ℕ → List ℕ
trim_right [] = []
trim_right (c ∷ s) = cons_trimmed c (trim_right s)

-- strings.TrimSpace
trim_space : List ℕ → List ℕ
trim_space s = trim_right (trim_left s)

-- `s[:len(s)-1]`, if `s` ends in the ASCII character `last`
strip_suffix : ℕ → List ℕ → Option (List ℕ)
strip_suffix last [] = none
strip_suffix last (c ∷ []) = if c == last then some [] else none
strip_suffix last (c ∷ d ∷ s) = elim (strip_suffix last (d ∷ s)) [
  | none ↦ none
  | some t ↦ some (c ∷ t)
]

-- the digits of a number, least value `n` first read
read_digits : ℕ → List ℕ → Option ℕ
read_digits n [] = some n
read_digits n (c ∷ s) =
    let rest = read_digits (n * 10 + (c - 48)) s in if leb 48 c && leb c 57 then rest else none

abbrev max_int : ℕ
max_int = 2 ^ 63 - 1

positive : Option ℕ → Option ℤ
positive none = none
positive (some n) = if leb n max_int then some (pos n) else none

negative : Option ℕ → Option ℤ
negative none = none
negative (some n) =
    if n == 0 then some (pos 0) else if leb n (suc max_int) then some (negsuc (n - 1)) else none

unsigned : List ℕ → Option ℕ
unsigned [] = none
unsigned (c ∷ s) = read_digits 0 (c ∷ s)

-- strconv.Atoi, with a 64-bit int
atoi : List ℕ → Option ℤ
atoi [] = none
atoi (c ∷ s) =
    if c == b'-'
    then negative (unsigned s)
    else if c == b'+'
    then positive (unsigned s)
    else positive (unsigned (c ∷ s))

parse_suffixed : ℕ → String → Option ℤ
unfolding trim_space trim_left trim_right cons_trimmed is_space strip_suffix atoi positive negative
    unsigned read_digits
parse_suffixed last s = elim (strip_suffix last (trim_space (codes s))) [
  | none ↦ none
  | some digits ↦ atoi digits
]

unfoldable pub parse_day_duration : String → Option ℤ
unfolding parse_suffixed
parse_day_duration s = parse_suffixed b'd' s

unfoldable pub parse_hour_duration : String → Option ℤ
unfolding parse_suffixed
parse_hour_duration s = parse_suffixed b'h' s
