-- ===== src/Strings/Laws.antt =====
-- Laws of the searches in a text.
use go_sessions.Base.{
  ℕ, suc, ◌+◌, GoString, str_eq, ◌==◌, ◌≡◌, refl, ap, true, false, none, some, [], ◌∷◌, ◌++◌,
  length, take, drop, arith,
}
use go_sessions.Strings.{index_byte, last_index_byte, count_byte, has_prefix, index, replace_once}

-- The byte does not occur in the text.
abbrev pub Lacks : ℕ → GoString → Type 0
Lacks c [] = Unit {0}
Lacks c (b ∷ s) = (b == c ≡ false) × Lacks c s

pub last_index-Lacks : (t : GoString) (c : ℕ) → Lacks c t → last_index_byte t c ≡ none
unfolding last_index_byte
last_index-Lacks [] c h = refl
last_index-Lacks (b ∷ t) c h = rw (last_index-Lacks t c h.1) (rw h.0)

same_byte : (c : ℕ) → c == c ≡ true
same_byte c = ground arith

pub last_index_byte-append :
    (s t : GoString) (c : ℕ) → Lacks c t → last_index_byte (s ++ c ∷ t) c ≡ some (length s)
unfolding last_index_byte
last_index_byte-append [] t c h = rw (last_index-Lacks t c h) (rw (same_byte c))
last_index_byte-append (b ∷ s) t c h = rw (last_index_byte-append s t c h)

pub index_byte-append :
    (s t : GoString) (c : ℕ) → Lacks c s → index_byte (s ++ c ∷ t) c ≡ some (length s)
unfolding index_byte
index_byte-append [] t c h = rw (same_byte c)
index_byte-append (b ∷ s) t c h = rw (h.0, index_byte-append s t c h.1)

pub count_byte-append :
    (s t : GoString) (c : ℕ) → count_byte (s ++ t) c ≡ count_byte s c + count_byte t c
unfolding count_byte
count_byte-append [] t c = omega arith
count_byte-append (b ∷ s) t c = ground (arith, count_byte-append s t c)

pub take-append : (s t : GoString) → take (length s) (s ++ t) ≡ s
take-append [] t = refl
take-append (b ∷ s) t = ap (◌∷◌ b) (take-append s t)

pub drop-append : (s t : GoString) → drop (length s) (s ++ t) ≡ t
drop-append [] t = refl
drop-append (b ∷ s) t = drop-append s t

pub drop_past : (s t : GoString) (c : ℕ) → drop (suc (length s)) (s ++ c ∷ t) ≡ t
drop_past [] t c = refl
drop_past (b ∷ s) t c = drop_past s t c

has_prefix-append : (s t : GoString) → has_prefix (s ++ t) s ≡ true
unfolding has_prefix
has_prefix-append [] [] = refl
has_prefix-append [] (b ∷ t) = refl
has_prefix-append (b ∷ s) t = ground (arith, has_prefix-append s t)

index-prefix : (s t : GoString) → index (s ++ t) s ≡ some 0
unfolding index has_prefix
index-prefix [] [] = refl
index-prefix [] (b ∷ t) = refl
index-prefix (b ∷ s) t = rw (same_byte b) (rw (has_prefix-append s t))

-- Replacing a prefix once.
pub replace_once-append : (old new t : GoString) → replace_once (old ++ t) old new ≡ new ++ t
unfolding replace_once
replace_once-append old new t =
    let at_start : 0 + length old ≡ length old = omega arith in
    rw (index-prefix old t, replace_once) (rw (at_start) (rw (drop-append old t)))

-- Texts with one beginning are equal where the rest is.
pub str_eq-append : (s t u : GoString) → str_eq (s ++ t) (s ++ u) ≡ str_eq t u
unfolding str_eq
str_eq-append [] t u = refl
str_eq-append (c ∷ s) t u = ground (arith, str_eq-append s t u)
