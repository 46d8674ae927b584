-- ===== src/Sessiondb/File/Paths.antt =====
-- `filepath.Join` of two elements, as sessiondb/file/database.go uses it, with slashes.
use go_sessions.Base.{
  ℕ, GoString, codes, str_eq, ◌+◌, ◌==◌, ◌++◌, take, ◌||◌, Bool, false, none, some, List, [], ◌∷◌,
  if◌then◌else◌,
}
use go_sessions.Strings.{last_index_byte}

-- The elements between the slashes.
abbrev pub push_byte : ℕ → List GoString → List GoString
push_byte b [] = (b ∷ []) ∷ []
push_byte b (e ∷ es) = (b ∷ e) ∷ es

unfoldable pub elements : GoString → List GoString
elements [] = [] ∷ []
elements (b ∷ s) = let rest = elements s in if b == b'/' then [] ∷ rest else push_byte b rest

-- The loop of `filepath.Clean`, over the elements that it has kept, the last first.
abbrev pub drop_last : Bool → List GoString → List GoString
drop_last rooted [] = if rooted then [] else codes ".." ∷ []
drop_last rooted (e ∷ es) = if str_eq e (codes "..") then codes ".." ∷ e ∷ es else es

-- What the loop keeps with one more element.
abbrev pub keep : Bool → List GoString → GoString → List GoString
keep rooted kept e =
    if str_eq e (codes "") || str_eq e (codes ".")
    then kept
    else if str_eq e (codes "..")
    then drop_last rooted kept
    else e ∷ kept

unfoldable pub clean_elements : Bool → List GoString → List GoString → List GoString
clean_elements rooted kept [] = kept
clean_elements rooted kept (e ∷ es) = clean_elements rooted (keep rooted kept e) es

-- The elements with slashes between them, from the last to the first.
unfoldable pub written : List GoString → GoString → GoString
written [] path = path
written (e ∷ []) path = e ++ path
written (e ∷ d ∷ es) path = written (d ∷ es) (codes "/" ++ (e ++ path))

abbrev pub is_rooted : GoString → Bool
is_rooted [] = false
is_rooted (b ∷ s) = b == b'/'

abbrev pub or_dot : GoString → GoString
or_dot [] = codes "."
or_dot (b ∷ s) = b ∷ s

-- `filepath.Clean`
unfoldable pub clean : GoString → GoString
unfolding elements clean_elements written
clean path =
    let kept = clean_elements (is_rooted path) [] (elements path) in
    or_dot (if is_rooted path then codes "/" ++ written kept [] else written kept [])

-- `filepath.Dir`
unfoldable pub dir : GoString → GoString
unfolding clean last_index_byte
dir path = elim (last_index_byte path b'/') [ none ↦ clean [] | some i ↦ clean (take (i + 1) path) ]

-- `filepath.Join`, which passes empty elements by.
unfoldable pub join : GoString → GoString → GoString
unfolding clean
join [] [] = []
join [] (b ∷ s) = clean (b ∷ s)
join (a ∷ d) [] = clean (a ∷ d)
join (a ∷ d) (b ∷ s) = clean ((a ∷ d) ++ (codes "/" ++ (b ∷ s)))
