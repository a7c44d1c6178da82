-- ===== src/KvDb/Decimal.antt =====
-- The calls of strconv in kvdb/kvdb.go: FormatInt and ParseInt, in base 10 and for 64 bits. A text is
-- the list of its bytes.
use helper.Base.{
  ℕ, zero, suc, ◌+◌, ◌-◌, ◌*◌, ◌/◌, ◌%◌, ◌^◌, ◌≤◌, ◌<◌, ◌≡◌, refl, ◌∙◌, ap, sym, Bool, true, false,
  List, [], ◌∷◌, if◌then◌else◌, ltb, leb, ◌==◌, arith, Bool-cases, inl, inr, ◌&&◌,
}
use helper.Base.Int.{ℤ, pos, negsuc, negate, ◌≤ℤ◌}

-- The digits of n before `out`; the fuel n + 1 is enough, as `scan-digits` shows.
unfoldable pub digits : ℕ → ℕ → List ℕ → List ℕ
digits zero n out = out
digits (suc fuel) n out =
    let longer = digits fuel (n / 10) ((48 + n % 10) ∷ out) in
    if ltb n 10 then (48 + n) ∷ out else longer

unfoldable pub format_int : ℤ → List ℕ
unfolding digits
format_int (pos n) = digits (suc n) n []
format_int (negsuc n) = 45 ∷ digits (suc (suc n)) (suc n) []

pub data ParseError : Type 0 where
  syntax_error range_error : ParseError

-- The number is what comes with the error.
pub data ParseResult : Type 0 where
  parsed : ℤ → ParseResult
  not_parsed : ParseError → ℤ → ParseResult

data Scan : Type 0 where
  scanned : ℕ → Scan
  scan_syntax : Scan
  scan_range : Scan

unfoldable scan : List ℕ → ℕ → Scan
scan [] n = scanned n
scan (c ∷ cs) n =
    let rest = scan cs (n * 10 + (c - 48)) in
    if leb 48 c && leb c 57
    then if ltb (n * 10 + (c - 48)) (2 ^ 64) then rest else scan_range
    else scan_syntax

abbrev signed : Bool → Scan → ParseResult
signed neg scan_syntax = not_parsed syntax_error (pos 0)
signed false scan_range = not_parsed range_error (pos (2 ^ 63 - 1))
signed true scan_range = not_parsed range_error (negsuc (2 ^ 63 - 1))
signed false (scanned n) =
    if ltb n (2 ^ 63) then parsed (pos n) else not_parsed range_error (pos (2 ^ 63 - 1))
signed true (scanned n) =
    if leb n (2 ^ 63) then parsed (negate n) else not_parsed range_error (negsuc (2 ^ 63 - 1))

-- The digits after the sign; there must be one.
unfoldable parse_digits : Bool → List ℕ → ParseResult
unfolding scan
parse_digits neg [] = not_parsed syntax_error (pos 0)
parse_digits neg (c ∷ cs) = signed neg (scan (c ∷ cs) 0)

pub parse_int : List ℕ → ParseResult
unfolding parse_digits
parse_int [] = not_parsed syntax_error (pos 0)
parse_int (c ∷ cs) =
    if c == 45
    then parse_digits true cs
    else if c == 43
    then parse_digits false cs
    else parse_digits false (c ∷ cs)

scan-digit : (n : ℕ) (cs : List ℕ) → n < 2 ^ 64 → scan ((48 + n % 10) ∷ cs) (n / 10) ≡ scan cs n
unfolding scan
scan-digit n cs fits =
    let same : n / 10 * 10 + (48 + n % 10 - 48) ≡ n = omega arith in ground (arith, same)

scan-nil : (n : ℕ) → scan [] n ≡ scanned n
unfolding scan
scan-nil n = refl

scan-last : (n : ℕ) (cs : List ℕ) → ltb n 10 ≡ true → scan ((48 + n) ∷ cs) 0 ≡ scan cs n
unfolding scan
scan-last n cs h = let same : 0 * 10 + (48 + n - 48) ≡ n = omega arith in ground (arith, same)

tenth_lt : {n fuel : ℕ} → n < suc fuel → ltb n 10 ≡ false → n / 10 < fuel
tenth_lt l e = ground arith

scan-digits :
    (fuel n : ℕ) (out : List ℕ) → n < fuel → n < 2 ^ 64 → scan (digits fuel n out) 0 ≡ scan out n
unfolding digits
scan-digits zero n out l fits = absurd (omega (arith, l))
scan-digits (suc fuel) n out l fits = elim (Bool-cases (ltb n 10)) [
  | inl e ↦ rw e (scan-last n out e)
  | inr e ↦ rw e (
      scan-digits fuel (n / 10) ((48 + n % 10) ∷ out) (tenth_lt l e) (omega (arith, fits))
      ∙ scan-digit n out fits)
]

abbrev Starts : ℕ → List ℕ → Type 0
Starts c cs = (ds : List ℕ) × (cs ≡ c ∷ ds) × (48 ≤ c)

-- The first character is a digit, no sign.
digits-first : (fuel n : ℕ) (out : List ℕ) → n < fuel → (c : ℕ) × Starts c (digits fuel n out)
unfolding digits
digits-first zero n out l = absurd (omega (arith, l))
digits-first (suc fuel) n out l = elim (Bool-cases (ltb n 10)) [
  | inl e ↦ rw e (48 + n, (out, refl, omega arith))
  | inr e ↦ rw e (digits-first fuel (n / 10) ((48 + n % 10) ∷ out) (tenth_lt l e))
]

parse_digits_lem :
    (neg : Bool) (c : ℕ) (cs : List ℕ) (n : ℕ)
    → Starts c cs
    → scan cs 0 ≡ scanned n
    → parse_digits neg cs ≡ signed neg (scanned n)
unfolding parse_digits
parse_digits_lem neg c cs n (ds, e, d) h = rw e (ap (signed neg) (ap (λ xs. scan xs 0) (sym e) ∙ h))

signed_lem : (cs : List ℕ) → parse_int (45 ∷ cs) ≡ parse_digits true cs
unfolding parse_int
signed_lem cs = refl

unsigned : (c : ℕ) (cs : List ℕ) → Starts c cs → parse_int cs ≡ parse_digits false cs
unfolding parse_int
unsigned c cs (ds, e, d) = rw e (ground (arith, d))

-- ParseInt reads what FormatInt wrote, for every int64.
pub parse_int-format_int :
    (n : ℤ) → negsuc (2 ^ 63 - 1) ≤ℤ n → n ≤ℤ pos (2 ^ 63 - 1) → parse_int (format_int n) ≡ parsed n
unfolding format_int
parse_int-format_int (pos n) l u =
    let (c, start) = digits-first (suc n) n [] (omega arith) in
    let value = scan-digits (suc n) n [] (omega arith) (omega (arith, u)) in
    unsigned c (digits (suc n) n []) start
    ∙ parse_digits_lem false c (digits (suc n) n []) n start (value ∙ scan-nil n)
    ∙ ground (arith, u)
parse_int-format_int (negsuc n) l u =
    let (c, start) = digits-first (suc (suc n)) (suc n) [] (omega arith) in
    let value = scan-digits (suc (suc n)) (suc n) [] (omega arith) (omega (arith, l)) in
    signed_lem (digits (suc (suc n)) (suc n) [])
    ∙ parse_digits_lem true c (digits (suc (suc n)) (suc n) []) (suc n) start
        (value ∙ scan-nil (suc n))
    ∙ ground (arith, l)
