-- ===== src/Sessiondb/File/Directory.antt =====
-- Where the file of a session lies.
use mathlib.Core.List.{append_assoc, append-nil}
use go_sessions.Base.{
  ℕ, GoString, codes, str_eq, ◌==◌, ◌≡◌, ◌≢◌, inl, inr, refl, ap, sym, ◌∙◌, Bool, true, false, List,
  [], ◌∷◌, ◌++◌, Bool-cases, subst, if◌then◌else◌,
}
use go_sessions.Strings.Laws.{Lacks, str_eq-append}
use go_sessions.Sessiondb.File.{FileDatabase, sess_path}
use go_sessions.Sessiondb.File.Paths.{
  push_byte, keep, elements, clean_elements, written, is_rooted, or_dot, clean, join,
}

-- An id that is one element of a path: no slash, not empty, no dot and no two dots.
pub record IsPlain (sid : GoString) : Type 0 where
  pub one_element : Lacks b'/' sid
  pub nonempty : str_eq sid (codes "") ≡ false
  pub no_dot : str_eq sid (codes ".") ≡ false
  pub no_dots : str_eq sid (codes "..") ≡ false

elements_lem : (sid : GoString) → Lacks b'/' sid → elements sid ≡ sid ∷ []
unfolding elements
elements_lem [] l = refl
elements_lem (b ∷ s) l = rw (l.0) (rw (elements_lem s l.1))

elements_nonempty : (s : GoString) → elements s ≢ []
unfolding elements
elements_nonempty [] e = cc
elements_nonempty (b ∷ s) e = elim (Bool-cases (b == b'/')) [
  | inl h ↦ cc (subst (λ x. (if x then [] ∷ elements s else push_byte b (elements s)) ≡ []) h e)
  | inr h ↦
      push_byte_nonempty b (elements s)
        (subst (λ x. (if x then [] ∷ elements s else push_byte b (elements s)) ≡ []) h e)
]
  where
    push_byte_nonempty : (b : ℕ) (es : List GoString) → push_byte b es ≢ []
    push_byte_nonempty b [] e = cc
    push_byte_nonempty b (x ∷ es) e = cc

push_byte-append :
    (b : ℕ) (es fs : List GoString) → es ≢ [] → push_byte b (es ++ fs) ≡ push_byte b es ++ fs
push_byte-append b [] fs h = absurd (h refl)
push_byte-append b (e ∷ es) fs h = refl

elements-append :
    (d sid : GoString) → Lacks b'/' sid → elements (d ++ b'/' ∷ sid) ≡ elements d ++ sid ∷ []
unfolding elements
elements-append [] sid l = rw (elements_lem sid l)
elements-append (b ∷ d) sid l = rw (elements-append d sid l) (elim (Bool-cases (b == b'/')) [
  | inl h ↦ rw h
  | inr h ↦ rw h (push_byte-append b (elements d) (sid ∷ []) (elements_nonempty d))
])

clean-append :
    (rooted : Bool) (es kept : List GoString) (sid : GoString)
    → IsPlain sid
    → clean_elements rooted kept (es ++ sid ∷ []) ≡ sid ∷ clean_elements rooted kept es
unfolding clean_elements
clean-append rooted [] kept sid v = rw (v.nonempty) (rw (v.no_dot) (rw (v.no_dots)))
clean-append rooted (e ∷ es) kept sid v = clean-append rooted es (keep rooted kept e) sid v

written-append : (es : List GoString) (s t : GoString) → written es (s ++ t) ≡ written es s ++ t
unfolding written
written-append [] s t = refl
written-append (e ∷ []) s t = sym (append_assoc e s t)
written-append (e ∷ d ∷ es) s t =
    ap (λ x. written (d ∷ es) (b'/' ∷ x)) (sym (append_assoc e s t))
    ∙ written-append (d ∷ es) (b'/' ∷ (e ++ s)) t

-- The elements of a directory, with a slash behind each.
abbrev listed : List GoString → GoString
listed [] = []
listed (e ∷ es) = written (e ∷ es) (codes "/")

written_last : (es : List GoString) (sid : GoString) → written (sid ∷ es) [] ≡ listed es ++ sid
unfolding written
written_last [] sid = append-nil sid
written_last (e ∷ es) sid =
    ap (λ x. written (e ∷ es) (b'/' ∷ x)) (append-nil sid) ∙ written-append (e ∷ es) (codes "/") sid

or_dot_lem : (s sid : GoString) → str_eq sid (codes "") ≡ false → or_dot (s ++ sid) ≡ s ++ sid
unfolding str_eq
or_dot_lem [] [] h = cc
or_dot_lem [] (b ∷ sid) h = refl
or_dot_lem (b ∷ s) sid h = refl

-- The directory of the database, as its files' paths begin.
abbrev pub directory : GoString → GoString
directory d =
    let kept = listed (clean_elements (is_rooted d) [] (elements d)) in
    if is_rooted d then b'/' ∷ kept else kept

-- The end of `clean`, for a path that ends in such an id.
finished :
    (rooted : Bool) (s sid : GoString)
    → str_eq sid (codes "") ≡ false
    → or_dot (if rooted then b'/' ∷ (s ++ sid) else s ++ sid)
      ≡ (if rooted then b'/' ∷ s else s) ++ sid
finished true s sid h = refl
finished false s sid h = or_dot_lem s sid h

empty_lem : str_eq [] (codes "") ≢ false
unfolding str_eq
empty_lem e = cc

join_lem : (d sid : GoString) → d ≢ [] → IsPlain sid → join d sid ≡ directory d ++ sid
unfolding join clean
join_lem [] sid h v = absurd (h refl)
join_lem (a ∷ d) [] h v = absurd (empty_lem v.nonempty)
join_lem (a ∷ d) (b ∷ s) h v = rw (elements-append (a ∷ d) (b ∷ s) v.one_element) (
    rw (clean-append (is_rooted (a ∷ d)) (elements (a ∷ d)) [] (b ∷ s) v) (
      rw (written_last (clean_elements (is_rooted (a ∷ d)) [] (elements (a ∷ d))) (b ∷ s)) (
        finished (is_rooted (a ∷ d))
          (listed (clean_elements (is_rooted (a ∷ d)) [] (elements (a ∷ d)))) (b ∷ s) v.nonempty)))

-- Where the database's directory is not the empty text, an id that is one element of a path, other
-- than a dot and two dots, has a file of its own: that element directly in the directory, and other
-- ids of that kind have other files.
pub sess_path_plain :
    {F : Type 0} (db : FileDatabase F) (a b : GoString)
    → db.dir ≢ []
    → IsPlain a
    → IsPlain b
    → (sess_path a db ≡ directory db.dir ++ a)
      × (str_eq (sess_path a db) (sess_path b db) ≡ str_eq a b)
unfolding sess_path
sess_path_plain db a b h v u = (
  join_lem db.dir a h v,
  rw (join_lem db.dir a h v) (rw (join_lem db.dir b h u) (str_eq-append (directory db.dir) a b)),
)
