-- ===== src/Json/Literal/Grammar.antt =====
-- The automaton of `is_json_numeric_literal` accepts exactly the numbers of RFC 8259.
use jpipe.Common.{
  ℕ, ◌≤◌, ◌≡◌, ◌≢◌, refl, ◌↔◌, ◌⊎◌, Bool, true, false, ◌||◌, [], ◌∷◌, Option, none, some, arith,
  ◌==◌, Bytes, All,
}
use jpipe.Json.Literal.{
  State, start, minus, digit, dot, fraction, exp, exp_sign, exp_digit, is_digit, step, is_final,
  accepts, is_json_numeric_literal,
}

abbrev pub IsDigit : ℕ → Type 0
IsDigit c = (b'0' ≤ c) × (c ≤ b'9')

abbrev pub IsExpMark : ℕ → Type 0
IsExpMark c = (c ≡ b'e') ⊎ (c ≡ b'E')

abbrev pub IsSign : ℕ → Type 0
IsSign c = (c ≡ b'+') ⊎ (c ≡ b'-')

-- The grammar, from the end of a number to its beginning: `digits` are any number of digits, and
-- a name with `rest` is a piece with all that may follow it.
pub data IsDigits : Bytes → Type 0 where
  nil : IsDigits []
  cons : {c : ℕ} {s : Bytes} → IsDigit c → IsDigits s → IsDigits (c ∷ s)

pub data IsDigitsOnce : Bytes → Type 0 where
  once : {c : ℕ} {s : Bytes} → IsDigit c → IsDigits s → IsDigitsOnce (c ∷ s)

-- A sign or none, and at least one digit.
pub data IsSigned : Bytes → Type 0 where
  unsigned : {s : Bytes} → IsDigitsOnce s → IsSigned s
  signed : {g : ℕ} {s : Bytes} → IsSign g → IsDigitsOnce s → IsSigned (g ∷ s)

pub data IsExponent : Bytes → Type 0 where
  mark : {e : ℕ} {s : Bytes} → IsExpMark e → IsSigned s → IsExponent (e ∷ s)

-- An exponent or nothing, behind any number of digits.
pub data IsDigitsExponent : Bytes → Type 0 where
  stop : IsDigitsExponent []
  exponent : {s : Bytes} → IsExponent s → IsDigitsExponent s
  more : {c : ℕ} {s : Bytes} → IsDigit c → IsDigitsExponent s → IsDigitsExponent (c ∷ s)

pub data IsDigitsExponentOnce : Bytes → Type 0 where
  first : {c : ℕ} {s : Bytes} → IsDigit c → IsDigitsExponent s → IsDigitsExponentOnce (c ∷ s)

-- A fraction with an exponent or none, an exponent alone, or nothing.
pub data IsFraction : Bytes → Type 0 where
  whole : IsFraction []
  scaled : {s : Bytes} → IsExponent s → IsFraction s
  point : {p : ℕ} {s : Bytes} → p ≡ b'.' → IsDigitsExponentOnce s → IsFraction (p ∷ s)

-- The digits of an integer part behind its first, with what follows.
pub data IsDigitsFraction : Bytes → Type 0 where
  tail : {s : Bytes} → IsFraction s → IsDigitsFraction s
  another : {c : ℕ} {s : Bytes} → IsDigit c → IsDigitsFraction s → IsDigitsFraction (c ∷ s)

-- A zero or a digit from 1 to 9 with more digits: no leading zeros.
pub data IsUnsigned : Bytes → Type 0 where
  zero_first : {c : ℕ} {s : Bytes} → c ≡ b'0' → IsFraction s → IsUnsigned (c ∷ s)
  digit_first : {c : ℕ} {s : Bytes} → IsDigit c → c ≢ b'0' → IsDigitsFraction s → IsUnsigned (c ∷ s)

pub data IsNumber : Bytes → Type 0 where
  positive : {s : Bytes} → IsUnsigned s → IsNumber s
  negative : {c : ℕ} {s : Bytes} → c ≡ b'-' → IsUnsigned s → IsNumber (c ∷ s)

-- What a state stands for: the texts that lead from it to the end of a number.
abbrev Rest : State → Bytes → Type 0
Rest start s = IsNumber s
Rest minus s = IsUnsigned s
Rest State.zero s = IsFraction s
Rest digit s = IsDigitsFraction s
Rest dot s = IsDigitsExponentOnce s
Rest fraction s = IsDigitsExponent s
Rest exp s = IsSigned s
Rest exp_sign s = IsDigitsOnce s
Rest exp_digit s = IsDigits s

step_sound :
    (st st' : State) (c : ℕ) (s : Bytes) → step st c ≡ some st' → Rest st' s → Rest st (c ∷ s)
unfolding step
step_sound start minus c s h r = negative (ground arith) r
step_sound start State.zero c s h r = positive (zero_first (ground arith) r)
step_sound start digit c s h r = positive (digit_first (ground arith) (ground arith) r)
step_sound start _ c s h r = absurd (ground arith)
step_sound minus State.zero c s h r = zero_first (ground arith) r
step_sound minus digit c s h r = digit_first (ground arith) (ground arith) r
step_sound minus _ c s h r = absurd (ground arith)
step_sound State.zero dot c s h r = point (ground arith) r
step_sound State.zero exp c s h r = scaled (mark (ground arith) r)
step_sound State.zero _ c s h r = absurd (ground arith)
step_sound digit digit c s h r = another (ground arith) r
step_sound digit dot c s h r = tail (point (ground arith) r)
step_sound digit exp c s h r = tail (scaled (mark (ground arith) r))
step_sound digit _ c s h r = absurd (ground arith)
step_sound dot fraction c s h r = first (ground arith) r
step_sound dot _ c s h r = absurd (ground arith)
step_sound fraction fraction c s h r = more (ground arith) r
step_sound fraction exp c s h r = exponent (mark (ground arith) r)
step_sound fraction _ c s h r = absurd (ground arith)
step_sound exp exp_sign c s h r = signed (ground arith) r
step_sound exp exp_digit c s h r = unsigned (once (ground arith) r)
step_sound exp _ c s h r = absurd (ground arith)
step_sound exp_sign exp_digit c s h r = once (ground arith) r
step_sound exp_sign _ c s h r = absurd (ground arith)
step_sound exp_digit exp_digit c s h r = cons (ground arith) r
step_sound exp_digit _ c s h r = absurd (ground arith)

final_sound : (st : State) → is_final st ≡ true → Rest st []
unfolding is_final
final_sound State.zero h = whole
final_sound digit h = tail whole
final_sound fraction h = stop
final_sound exp_digit h = nil
final_sound _ h = absurd (cc)

-- The next state exists where the automaton accepts a text that is not at its end.
accepts-step :
    (st : State) (c : ℕ) (s : Bytes)
    → accepts st (c ∷ s) ≡ true
    → (st' : State) × (step st c ≡ some st') × (accepts st' s ≡ true)
unfolding accepts
accepts-step st c s h = split (step st c) refl h
  where
    split :
        (o : Option State)
        → step st c ≡ o
        → elim o [ none ↦ false | some st' ↦ accepts st' s ] ≡ true
        → (st' : State) × (step st c ≡ some st') × (accepts st' s ≡ true)
    split none e k = absurd (cc)
    split (some st') e k = (st', e, k)

accepts_sound : (s : Bytes) (st : State) → accepts st s ≡ true → Rest st s
accepts_sound [] st h = final_sound st (unfold accepts in h)
accepts_sound (c ∷ s) st h =
    let (st', e, k) = accepts-step st c s h in step_sound st st' c s e (accepts_sound s st' k)

accepts-cons :
    (st st' : State) (c : ℕ) (s : Bytes)
    → step st c ≡ some st'
    → accepts st' s ≡ true
    → accepts st (c ∷ s) ≡ true
unfolding accepts
accepts-cons st st' c s e h = rw (e, accepts) h

digits_complete : {s : Bytes} → IsDigits s → accepts exp_digit s ≡ true
digits_complete nil = unfold accepts is_final in refl
digits_complete (cons {c} {s} d r) =
    accepts-cons exp_digit exp_digit c s (unfold step in ground arith) (digits_complete r)

once_complete : {s : Bytes} → IsDigitsOnce s → accepts exp_sign s ≡ true
unfolding step
once_complete (once {c} {s} d r) =
    accepts-cons exp_sign exp_digit c s (ground arith) (digits_complete r)

signed_complete : {s : Bytes} → IsSigned s → accepts exp s ≡ true
unfolding step
signed_complete (unsigned (once {c} {s} d r)) =
    accepts-cons exp exp_digit c s (ground arith) (digits_complete r)
signed_complete (signed {g} {s} h r) =
    accepts-cons exp exp_sign g s (ground arith) (once_complete r)

digits_exponent_complete : {s : Bytes} → IsDigitsExponent s → accepts fraction s ≡ true
digits_exponent_complete stop = unfold accepts is_final in refl
digits_exponent_complete (exponent (mark {e} {s} h r)) =
    accepts-cons fraction exp e s (unfold step in ground arith) (signed_complete r)
digits_exponent_complete (more {c} {s} d r) =
    accepts-cons fraction fraction c s (unfold step in ground arith) (digits_exponent_complete r)

point_complete : {s : Bytes} → IsDigitsExponentOnce s → accepts dot s ≡ true
unfolding step
point_complete (first {c} {s} d r) =
    accepts-cons dot fraction c s (ground arith) (digits_exponent_complete r)

zero_complete : {s : Bytes} → IsFraction s → accepts State.zero s ≡ true
unfolding step accepts is_final
zero_complete whole = refl
zero_complete (scaled (mark {e} {s} h r)) =
    accepts-cons State.zero exp e s (ground arith) (signed_complete r)
zero_complete (point {p} {s} h r) =
    accepts-cons State.zero dot p s (ground arith) (point_complete r)

digit_complete : {s : Bytes} → IsDigitsFraction s → accepts digit s ≡ true
digit_complete (tail whole) = unfold accepts is_final in refl
digit_complete (tail (scaled (mark {e} {s} h r))) =
    accepts-cons digit exp e s (unfold step in ground arith) (signed_complete r)
digit_complete (tail (point {p} {s} h r)) =
    accepts-cons digit dot p s (unfold step in ground arith) (point_complete r)
digit_complete (another {c} {s} d r) =
    accepts-cons digit digit c s (unfold step in ground arith) (digit_complete r)

minus_complete : {s : Bytes} → IsUnsigned s → accepts minus s ≡ true
unfolding step
minus_complete (zero_first {c} {s} h r) =
    accepts-cons minus State.zero c s (ground arith) (zero_complete r)
minus_complete (digit_first {c} {s} d h r) =
    accepts-cons minus digit c s (ground arith) (digit_complete r)

start_complete : {s : Bytes} → IsNumber s → accepts start s ≡ true
unfolding step
start_complete (positive (zero_first {c} {s} h r)) =
    accepts-cons start State.zero c s (ground arith) (zero_complete r)
start_complete (positive (digit_first {c} {s} d h r)) =
    accepts-cons start digit c s (ground arith) (digit_complete r)
start_complete (negative {c} {s} h r) =
    accepts-cons start minus c s (ground arith) (minus_complete r)

-- is_json_numeric_literal returns true exactly on the numbers of the JSON grammar.
pub is_json_numeric_literal_iff : (s : Bytes) → (is_json_numeric_literal s ≡ true) ↔ IsNumber s
unfolding is_json_numeric_literal
is_json_numeric_literal_iff s = (accepts_sound s start, start_complete)

-- Digits, the signs, the point and the exponent marks.
abbrev pub is_number_byte : ℕ → Bool
is_number_byte c = is_digit c || c == b'-' || c == b'+' || c == b'.' || c == b'e' || c == b'E'

step-is_number_byte : (st st' : State) (c : ℕ) → step st c ≡ some st' → is_number_byte c ≡ true
unfolding step
step-is_number_byte start st' c h = ground arith
step-is_number_byte _ st' c h = ground arith

accepts-bytes :
    (s : Bytes) (st : State) → accepts st s ≡ true → All (λ c. is_number_byte c ≡ true) s
accepts-bytes [] st h = tt
accepts-bytes (c ∷ s) st h =
    let (st', e, k) = accepts-step st c s h in
    (step-is_number_byte st st' c e, accepts-bytes s st' k)

pub IsNumber-bytes : {s : Bytes} → IsNumber s → All (λ c. is_number_byte c ≡ true) s
IsNumber-bytes {s} n = accepts-bytes s start (start_complete n)
