-- ===== src/Json/Prefix/Scan.antt =====
-- A text read with its quotes: what every JSON text obeys, and what the pieces of a record do.
use jpipe.Common.{
  ℕ, ◌≡◌, refl, ap, ◌∙◌, ◌⊎◌, inl, inr, Bool, true, false, not, ◌||◌, List, [], ◌∷◌, ◌++◌, Option,
  none, some, arith, ◌==◌, ltb, if◌then◌else◌, Bool-cases, Bytes, IsByte, All, all_below,
  all_below_sound,
}
use jpipe.Field.{Field}
use jpipe.Field.Parse.{IsKeyByte, IsField}
use jpipe.Json.Escape.{esc_len, json_short_lookup, hex_chars}
use jpipe.Json.Escape.Bounds.{escaped, escape_all}
use jpipe.Json.Literal.{is_json_string_literal}
use jpipe.Json.Literal.Grammar.{is_number_byte, IsNumber-bytes}
use jpipe.Json.Literal.Quoting.{IsBareValue, is_json_string_literal_iff}
use jpipe.Json.Prefix.{msg_key}
use jpipe.Json.Prefix.Size.{quote, member, members, prefix_text}

-- Outside a string, inside one, or inside one behind a backslash.
pub data Place : Type 0 where
  outside inside behind : Place

-- What every JSON text obeys: no backslash outside a string, no control byte inside one.
unfoldable pub next : Place → ℕ → Option Place
next outside c = if c == b'"' then some inside else if c == b'\\' then none else some outside
next inside c =
    if c == b'"'
    then some outside
    else if c == b'\\'
    then some behind
    else if ltb c 32
    then none
    else some inside
next behind c = some inside

unfoldable pub scan : Place → Bytes → Option Place
scan p [] = some p
scan p (c ∷ cs) = elim (next p c) [ none ↦ none | some q ↦ scan q cs ]

-- The quotes of a text pair up: a condition that every JSON text meets.
abbrev pub IsWellQuoted : Bytes → Type 0
IsWellQuoted text = scan outside text ≡ some outside

abbrev pub resume : Option Place → Bytes → Option Place
resume none ys = none
resume (some q) ys = scan q ys

pub scan-append : (p : Place) (xs ys : Bytes) → scan p (xs ++ ys) ≡ resume (scan p xs) ys
unfolding scan
scan-append p [] ys = refl
scan-append p (c ∷ xs) ys = after (next p c) (λ q. scan-append q xs ys)
  where
    after :
        (o : Option Place)
        → ((q : Place) → scan q (xs ++ ys) ≡ resume (scan q xs) ys)
        → elim o [ none ↦ none | some q ↦ scan q (xs ++ ys) ]
          ≡ resume (elim o [ none ↦ none | some q ↦ scan q xs ]) ys
    after none ih = refl
    after (some q) ih = ih q

-- A piece that is read from `p` to `q`, and then the rest.
pub scan_then : (p q : Place) (xs ys : Bytes) → scan p xs ≡ some q → scan p (xs ++ ys) ≡ scan q ys
scan_then p q xs ys e = scan-append p xs ys ∙ ap (λ o. resume o ys) e

abbrev is_inside : Option Place → Bool
is_inside (some inside) = true
is_inside _ = false

is_inside-eq : (o : Option Place) → is_inside o ≡ true → o ≡ some inside
is_inside-eq (some inside) h = refl
is_inside-eq _ h = absurd (cc)

inside_table : all_below 256 (λ c. is_inside (scan inside (escaped c))) ≡ true
unfolding all_below scan next escaped esc_len json_short_lookup hex_chars
inside_table = refl

pub scan_inside : (s : Bytes) → All IsByte s → scan inside (escape_all s) ≡ some inside
unfolding escape_all
scan_inside [] h = unfold scan in refl
scan_inside (c ∷ s) h =
    scan_then inside inside (escaped c) (escape_all s) (
      is_inside-eq _
        (all_below_sound 256 (λ x. is_inside (scan inside (escaped x))) c inside_table h.0))
    ∙ scan_inside s h.1

scan_key : (s : Bytes) → All IsKeyByte s → scan inside s ≡ some inside
scan_key [] h = unfold scan in refl
scan_key (c ∷ s) h =
    scan_then inside inside (c ∷ []) s (unfold scan next in ground (arith, h.0)) ∙ scan_key s h.1

abbrev is_outside : Option Place → Bool
is_outside (some outside) = true
is_outside _ = false

is_outside-eq : (o : Option Place) → is_outside o ≡ true → o ≡ some outside
is_outside-eq (some outside) h = refl
is_outside-eq _ h = absurd (cc)

number_table :
    all_below 256 (λ c. not (is_number_byte c) || is_outside (scan outside (escaped c))) ≡ true
unfolding all_below scan next escaped esc_len json_short_lookup hex_chars
number_table = refl

scan_number_byte :
    (c : ℕ) → IsByte c → is_number_byte c ≡ true → scan outside (escaped c) ≡ some outside
scan_number_byte c h n = is_outside-eq _ (
    after (is_number_byte c) n (
      all_below_sound 256 (λ x. not (is_number_byte x) || is_outside (scan outside (escaped x))) c
        number_table h))
  where
    after :
        (b : Bool)
        → b ≡ true
        → (not b || is_outside (scan outside (escaped c))) ≡ true
        → is_outside (scan outside (escaped c)) ≡ true
    after true n k = k
    after false n k = absurd (cc)

scan_number :
    (s : Bytes)
    → All IsByte s
    → All (λ c. is_number_byte c ≡ true) s
    → scan outside (escape_all s) ≡ some outside
unfolding escape_all
scan_number [] h n = unfold scan in refl
scan_number (c ∷ s) h n =
    scan_then outside outside (escaped c) (escape_all s) (scan_number_byte c h.0 n.0)
    ∙ scan_number s h.1 n.1

scan_bare : (s : Bytes) → All IsByte s → IsBareValue s → scan outside (escape_all s) ≡ some outside
unfolding escape_all scan next escaped esc_len json_short_lookup hex_chars
scan_bare s h (inl e) = rw e
scan_bare s h (inr (inl e)) = rw e
scan_bare s h (inr (inr (inl e))) = rw e
scan_bare s h (inr (inr (inr n))) = scan_number s h (IsNumber-bytes n)

-- A value with its quotes, if it has any.
scan_value :
    (f : Field)
    → IsField f
    → scan outside (quote f ++ (escape_all f.val ++ (quote f ++ b',' ∷ []))) ≡ some outside
unfolding quote
scan_value f v = elim (Bool-cases (is_json_string_literal f.val)) [
  | inl text ↦ rw text (quoted)
  | inr bare ↦ rw bare (
      scan_then outside outside (escape_all f.val) (b',' ∷ [])
        (scan_bare f.val v.val_bytes ((is_json_string_literal_iff f.val).0 bare))
      ∙ unfold scan next in refl)
]
  where
    quoted : scan outside (b'"' ∷ (escape_all f.val ++ (b'"' ∷ b',' ∷ []))) ≡ some outside
    quoted =
        scan_then outside inside (b'"' ∷ []) (escape_all f.val ++ (b'"' ∷ b',' ∷ []))
          (unfold scan next in refl)
        ∙ scan_then inside inside (escape_all f.val) (b'"' ∷ b',' ∷ [])
            (scan_inside f.val v.val_bytes)
        ∙ unfold scan next in refl

scan-member : (f : Field) → IsField f → scan outside (member f) ≡ some outside
unfolding member
scan-member f v =
    let value = quote f ++ (escape_all f.val ++ (quote f ++ b',' ∷ [])) in
    scan_then outside inside (b'"' ∷ []) (f.key ++ (b'"' ∷ b':' ∷ value)) (unfold scan next in refl)
    ∙ scan_then inside inside f.key (b'"' ∷ b':' ∷ value) (scan_key f.key v.key_bytes)
    ∙ scan_then inside outside (b'"' ∷ b':' ∷ []) value (unfold scan next in refl)
    ∙ scan_value f v

scan-members : (fs : List Field) → All IsField fs → scan outside (members fs) ≡ some outside
unfolding members
scan-members [] h = unfold scan in refl
scan-members (f ∷ fs) h =
    scan_then outside outside (member f) (members fs) (scan-member f h.0) ∙ scan-members fs h.1

pub scan-prefix_text :
    (fs : List Field) → All IsField fs → scan outside (prefix_text fs) ≡ some outside
unfolding prefix_text
scan-prefix_text fs h =
    scan_then outside outside (b'{' ∷ []) (members fs ++ msg_key) (unfold scan next in refl)
    ∙ scan_then outside outside (members fs) msg_key (scan-members fs h)
    ∙ unfold scan next in refl

-- Read outside a string, an escape either stays there or is an error.
abbrev stays : Option Place → Bool
stays none = true
stays (some outside) = true
stays (some _) = false

stays-cases : (o : Option Place) → stays o ≡ true → (o ≡ none) ⊎ (o ≡ some outside)
stays-cases none h = inl refl
stays-cases (some outside) h = inr refl
stays-cases (some _) h = absurd (cc)

stays_table : all_below 256 (λ c. stays (scan outside (escaped c))) ≡ true
unfolding all_below scan next escaped esc_len json_short_lookup hex_chars
stays_table = refl

pub scan_unquoted :
    (s : Bytes)
    → All IsByte s
    → (scan outside (escape_all s) ≡ none) ⊎ (scan outside (escape_all s) ≡ some outside)
unfolding escape_all
scan_unquoted [] h = inr (unfold scan in refl)
scan_unquoted (c ∷ s) h =
    elim (stays-cases (scan outside (escaped c))
      (all_below_sound 256 (λ x. stays (scan outside (escaped x))) c stays_table h.0)) [
        | inl e ↦
            inl
              (scan-append outside (escaped c) (escape_all s) ∙ ap (λ o. resume o (escape_all s)) e)
        | inr e ↦ rw (scan_then outside outside (escaped c) (escape_all s) e) (scan_unquoted s h.1)
      ]
