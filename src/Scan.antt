-- ===== src/Scan.antt =====
-- The text searches of the parsers: what they use of `std::string`, of `std::stoull` and its kin, and of
-- `std::regex` with a pattern of a literal, a run of characters and a literal. A position is a byte
-- position, and `npos` is none.
pub mod Bounds
use Prim.Native.Char.{Char, code}
use Prim.Native.String.{String, find, slice, len, ◌++◌ as append}
use text.Mathlib.Text.{starts_with}
use hl_maker_lighter_arb_cpp.Common.{
  ℕ, zero, suc, ◌+◌, ◌-◌, ◌*◌, ◌^◌, Bool, true, false, not, ◌&&◌, ◌||◌, Option, none, some, ltb,
  leb, ◌==◌, has_value, if◌then◌else◌, ◌≡◌, refl,
}

-- The rest of a function that returns early when a search fails.
infixl 5 ◌>>=◌
abbrev pub ◌>>=◌ {ℓ κ} : {A : Type ℓ} {B : Type κ} → Option A → (A → Option B) → Option B
none >>= f = none
some a >>= f = f a

-- Inversion of a successful bind.
pub >>=-eq-some {ℓ κ} :
    {A : Type ℓ} {B : Type κ} (m : Option A) (f : A → Option B) {b : B}
    → (m >>= f) ≡ some b
    → (a : A) × (m ≡ some a) × (f a ≡ some b)
>>=-eq-some (some a) f e = (a, refl, e)
>>=-eq-some none f e = cc

abbrev pub or_else {ℓ} : {A : Type ℓ} → Option A → A → A
or_else none a = a
or_else (some b) a = b

-- `s.substr(p)`
unfoldable pub drop : String → ℕ → String
drop s p = slice s p (len s)

-- `s.substr(p, n)`; a slice stops at the end of its text.
unfoldable pub substr : String → ℕ → ℕ → String
substr s p n = slice s p (p + n)

-- `s.find(t, p)`. `find` answers a number past the end where there is no occurrence.
unfoldable pub find_from : String → String → ℕ → Option ℕ
find_from s t p =
    let q = p + find (slice s p (len s)) t in if leb (q + len t) (len s) then some q else none

-- `s.find(t) != npos`
unfoldable pub contains : String → String → Bool
unfolding find_from
contains s t = has_value (find_from s t 0)

-- The longest prefix whose characters pass a test: what a scanning `while` moves over.
unfoldable pub span : (Char → Bool) → String → String
span p String.[] = String.[]
span p (String.◌∷◌ c s) = let rest = span p s in if p c then String.◌∷◌ c rest else String.[]

abbrev pub is_char : ℕ → Char → Bool
is_char n c = code c == n

abbrev pub not_quote : Char → Bool
not_quote c = not (is_char 34 c)

abbrev pub is_digit : Char → Bool
is_digit c = leb b'0' (code c) && leb (code c) b'9'

-- The position that a scan from `p` stops at.
unfoldable pub skip : (Char → Bool) → String → ℕ → ℕ
unfolding span drop
skip t s p = p + len (span t (drop s p))

-- The digits of a text as a number.
unfoldable pub digits_value : ℕ → String → ℕ
digits_value acc String.[] = acc
digits_value acc (String.◌∷◌ c s) = digits_value (acc * 10 + (code c - b'0')) s

-- `std::stoull` on a run of digits, which throws `std::out_of_range` from 2^64 on and
-- `std::invalid_argument` on no digits; then `std::stoll` and `std::stoi`.
unfoldable pub digits_below : ℕ → String → Option ℕ
unfolding digits_value
digits_below bound s =
    if 0 == len s
    then none
    else if ltb (digits_value 0 s) bound
    then some (digits_value 0 s)
    else none

-- What a pattern finds behind its literal prefix, and the group that it captures: `([0-9]+)`, `(-?[0-9]+)`,
-- `([^"]+)"` and `(true|false)`.
unfoldable pub digits_group : String → Option String
unfolding span
digits_group s = if 0 == len (span is_digit s) then none else some (span is_digit s)

unfoldable pub int_group : String → Option String
unfolding digits_group drop
int_group s =
    if starts_with s "-"
    then digits_group (drop s 1) >>= (λ n. some (append "-" n))
    else digits_group s

unfoldable pub quoted_group : String → Option String
unfolding span drop
quoted_group s =
    let run = span not_quote s in
    if 0 == len run then none else if starts_with (drop s (len run)) "\"" then some run else none

unfoldable pub bool_group : String → Option String
bool_group s =
    if starts_with s "true"
    then some "true"
    else if starts_with s "false"
    then some "false"
    else none

-- `std::regex_search` with such a pattern: the leftmost prefix behind which the rest of the pattern
-- matches. The fuel is the number of positions that are left.
unfoldable pub search_on : ℕ → String → String → (String → Option String) → ℕ → Option String
unfolding find_from drop
search_on zero s pre group p = none
search_on (suc f) s pre group p = find_from s pre p >>= (λ q. elim (group (drop s (q + len pre))) [
  | none ↦ search_on f s pre group (suc q)
  | some g ↦ some g
])

unfoldable pub regex_search : String → String → (String → Option String) → Option String
unfolding search_on
regex_search s pre group = search_on (suc (len s)) s pre group 0
