-- ===== src/Flags/FieldNames.antt =====
-- flagparse/flags.go: the names of flags and of the fields that they set. Names are ASCII.
use file_upload.Prelude.{
  ℕ, zero, suc, ◌+◌, ◌-◌, ◌≤◌, ◌≡◌, refl, ap, sym, ◌∙◌, Bool, true, false, ◌&&◌, if◌then◌else◌, leb,
  [], ◌∷◌, ◌++◌, length, drop, length-append, arith, Bool-cases, inl, inr,
}
use file_upload.Prelude.Text.{Text, bytes, text_beq, text_beq_iff, text_beq_refl}

-- `s[:n]`
abbrev pub take : ℕ → Text → Text
take zero s = []
take (suc n) [] = []
take (suc n) (c ∷ s) = c ∷ take n s

-- strings.HasSuffix(s, suffix)
unfoldable pub has_suffix : Text → Text → Bool
unfolding text_beq
has_suffix s suffix =
    leb (length suffix) (length s) && text_beq (drop (length s - length suffix) s) suffix

-- `replaceSuffix`
unfoldable pub replace_suffix : Text → Text → Text → Text
unfolding has_suffix
replace_suffix s suffix replacement =
    if has_suffix s suffix then take (length s - length suffix) s ++ replacement else s

abbrev upper : ℕ → ℕ
upper c = if leb b'a' c && leb c b'z' then c - 32 else c

abbrev lower : ℕ → ℕ
lower c = if leb b'A' c && leb c b'Z' then c + 32 else c

-- The first rune changed. An empty name faults in the code, and no flag or field has one.
abbrev capitalize : Text → Text
capitalize [] = []
capitalize (c ∷ s) = upper c ∷ s

abbrev uncapitalize : Text → Text
uncapitalize [] = []
uncapitalize (c ∷ s) = lower c ∷ s

-- `ToFieldName`
unfoldable pub to_field_name : Text → Text
unfolding replace_suffix
to_field_name s = capitalize (replace_suffix s (bytes "Id") (bytes "ID"))

-- `ToFlagName`
unfoldable pub to_flag_name : Text → Text
unfolding replace_suffix
to_flag_name s = uncapitalize (replace_suffix s (bytes "ID") (bytes "Id"))

-- A name of at least three letters that does not end in `suffix`, and whose first letter is one of
-- those that `first` accepts.
abbrev pub IsName : (ℕ → Bool) → Text → Text → Type 0
IsName first suffix [] = ⊥
IsName first suffix (c ∷ s) =
    (first c ≡ true) × (2 ≤ length s) × (has_suffix (c ∷ s) suffix ≡ false)

-- The names of exported fields, and those of flags.
abbrev pub IsFieldName : Text → Type 0
IsFieldName = IsName (λ c. leb b'A' c && leb c b'Z') (bytes "Id")

abbrev pub IsFlagName : Text → Type 0
IsFlagName = IsName (λ c. leb b'a' c && leb c b'z') (bytes "ID")

take-length-append : (p t : Text) → take (length p) (p ++ t) ≡ p
take-length-append [] t = refl
take-length-append (c ∷ p) t = ap (c ∷◌) (take-length-append p t)

drop-length-append : (p t : Text) → drop (length p) (p ++ t) ≡ t
drop-length-append [] t = refl
drop-length-append (c ∷ p) t = drop-length-append p t

length-before : (p t : Text) → length (p ++ t) - length t ≡ length p
length-before p t = omega (arith, length-append p t)

has_suffix-append : (p t : Text) → has_suffix (p ++ t) t ≡ true
unfolding has_suffix
has_suffix-append p t =
    let same = ap (λ k. drop k (p ++ t)) (length-before p t) ∙ drop-length-append p t in
    let fits : leb (length t) (length (p ++ t)) ≡ true = ground (arith, length-append p t) in
    rw (fits, same) (text_beq_refl t)

take-drop : (n : ℕ) (s : Text) → take n s ++ drop n s ≡ s
take-drop zero s = refl
take-drop (suc n) [] = refl
take-drop (suc n) (c ∷ s) = ap (c ∷◌) (take-drop n s)

-- A text with a suffix is what stands before it and the suffix.
before_suffix : (s t : Text) → has_suffix s t ≡ true → take (length s - length t) s ++ t ≡ s
unfolding has_suffix
before_suffix s t h =
    let rest = drop (length s - length t) s in
    let same : rest ≡ t = (text_beq_iff rest t).0 (ground (arith, h)) in
    ap (take (length s - length t) s ++◌) (sym same) ∙ take-drop (length s - length t) s

module _ (s t r : Text) where
  replace_suffix_found :
      has_suffix s t ≡ true → replace_suffix s t r ≡ take (length s - length t) s ++ r
  unfolding replace_suffix
  replace_suffix_found h = rw h

  replace_suffix_missing : has_suffix s t ≡ false → replace_suffix s t r ≡ s
  unfolding replace_suffix
  replace_suffix_missing h = rw h

-- Replacing a suffix and replacing it back.
replace_suffix-replace_suffix :
    (s a b : Text) → has_suffix s b ≡ false → replace_suffix (replace_suffix s a b) b a ≡ s
replace_suffix-replace_suffix s a b h = elim (Bool-cases (has_suffix s a)) [
  | inl e ↦
      let p = take (length s - length a) s in
      rw (replace_suffix_found s a b e) (
        replace_suffix_found (p ++ b) b a (has_suffix-append p b)
        ∙ ap (λ k. take k (p ++ b) ++ a) (length-before p b)
        ∙ ap (◌++ a) (take-length-append p b)
        ∙ before_suffix s a e)
  | inr e ↦ rw (replace_suffix_missing s a b e) (replace_suffix_missing s b a h)
]

-- A suffix does not reach to the first letter of a longer text.
has_suffix-cons : (c : ℕ) (s t : Text) → length t ≤ length s → has_suffix (c ∷ s) t ≡ has_suffix s t
unfolding has_suffix
has_suffix-cons c s t h =
    let index : suc (length s) - length t ≡ suc (length s - length t) = omega arith in
    rw index (ground arith)

replace_suffix-cons :
    (c : ℕ) (s t r : Text)
    → length t ≤ length s
    → replace_suffix (c ∷ s) t r ≡ c ∷ replace_suffix s t r
replace_suffix-cons c s t r h = elim (Bool-cases (has_suffix s t)) [
  | inl e ↦
      let index : suc (length s) - length t ≡ suc (length s - length t) = omega arith in
      replace_suffix_found (c ∷ s) t r (has_suffix-cons c s t h ∙ e)
      ∙ ap (λ k. take k (c ∷ s) ++ r) index
      ∙ ap (c ∷◌) (sym (replace_suffix_found s t r e))
  | inr e ↦
      replace_suffix_missing (c ∷ s) t r (has_suffix-cons c s t h ∙ e)
      ∙ ap (c ∷◌) (sym (replace_suffix_missing s t r e))
]

length-replace_suffix :
    (s t r : Text) → length t ≡ length r → length (replace_suffix s t r) ≡ length s
length-replace_suffix s t r h = elim (Bool-cases (has_suffix s t)) [
  | inl e ↦
      ap length (replace_suffix_found s t r e)
      ∙ omega (
        arith,
        length-append (take (length s - length t) s) r,
        length-append (take (length s - length t) s) t,
        ap length (before_suffix s t e),
      )
  | inr e ↦ ap length (replace_suffix_missing s t r e)
]

-- Replacing the suffix and back, below the first letter.
there_and_back :
    (c : ℕ) (s a b : Text)
    → length a ≡ length b
    → length a ≤ length s
    → has_suffix (c ∷ s) b ≡ false
    → (d : ℕ) → replace_suffix (d ∷ replace_suffix s a b) b a ≡ d ∷ s
there_and_back c s a b same fits h d =
    replace_suffix-cons d (replace_suffix s a b) b a
      (omega (arith, length-replace_suffix s a b same))
    ∙ ap (d ∷◌)
        (replace_suffix-replace_suffix s a b (sym (has_suffix-cons c s b (omega arith)) ∙ h))

-- The flag of a field sets that field, for a field whose name begins with an upper case letter, has
-- three letters or more and does not end in `Id`.
pub to_field_name-to_flag_name : (s : Text) → IsFieldName s → to_field_name (to_flag_name s) ≡ s
unfolding to_field_name to_flag_name
to_field_name-to_flag_name [] h = absurd h
to_field_name-to_flag_name (c ∷ s) (letter, long, plain) =
    rw (replace_suffix-cons c s (bytes "ID") (bytes "Id") long) (
      rw (there_and_back c s (bytes "ID") (bytes "Id") refl long plain (lower c))
        (ap (◌∷ s) (ground (arith, letter))))

-- The field that a flag sets has that flag, for a flag whose name begins with a lower case letter,
-- has three letters or more and does not end in `ID`.
pub to_flag_name-to_field_name : (s : Text) → IsFlagName s → to_flag_name (to_field_name s) ≡ s
unfolding to_field_name to_flag_name
to_flag_name-to_field_name [] h = absurd h
to_flag_name-to_field_name (c ∷ s) (letter, long, plain) =
    rw (replace_suffix-cons c s (bytes "Id") (bytes "ID") long) (
      rw (there_and_back c s (bytes "Id") (bytes "ID") refl long plain (upper c))
        (ap (◌∷ s) (ground (arith, letter))))
