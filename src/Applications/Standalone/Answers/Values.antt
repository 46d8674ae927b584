-- ===== src/Applications/Standalone/Answers/Values.antt =====
-- The calls on one session of _examples/standalone/main.go, and the account.
use go_sessions.Base.{
  ℕ, GoString, str_eq, ◌≡◌, refl, subst, ◌∙◌, ap, Bool, true, false, Option, none, some, [], length,
  get_elem?, if◌then◌else◌,
}
use go_sessions.Value.{Value, nil, string, slice, items, Heap, alloc, indirect}
use go_sessions.Memstore.{Entry, value, overwrite, copied}
use go_sessions.Memstore.Lookup.{saved}
use go_sessions.Database.{Database}
use go_sessions.World.{World, lookup}
use go_sessions.Session
use go_sessions.Session.{set_with, delete_value, clear, get}
use go_sessions.Session.Values.{get_string, string_of}
use go_sessions.Clients.{Returns, Returns-continue, Returns-weaken, stored}
use go_sessions.Clients.Values.{
  IsWritten, set-Returns, delete-Returns, clear-Returns, get-Returns, fetched,
}
use go_sessions.Applications.Standalone.{name, business_edit, iris, business}
use go_sessions.Applications.Standalone.Account.{Known, unknown, Account, put_known}
use go_sessions.Applications.Standalone.Answers.{
  name_entry, IsModelled, Keeps, Agrees, written-Agrees, read-Agrees,
}

saved_name : (b : Bool) → some (saved (name_entry b) name (string iris) false) ≡ name_entry true
unfolding overwrite
saved_name true = refl
saved_name false = refl

saved_models :
    (h : Heap) (b : Bool) (o : Option Entry) (r : ℕ)
    → IsModelled h b o
    → get_elem? h r ≡ some (items business)
    → IsModelled h true (some (saved o business_edit (slice r) true))
unfolding overwrite
saved_models h false o r m e = rw m (r, refl, e)
saved_models h true o r m e = rw (m.1) (r, refl, e)

abbrev pub seen : Bool → GoString
seen b = if b then iris else []

abbrev name_value : Bool → Value
name_value false = nil
name_value true = string iris

fetched_name : (h : Heap) (b : Bool) → fetched h (name_entry b) ≡ some (name_value b, h)
unfolding value
fetched_name h false = refl
fetched_name h true = refl

string_of_name : (b : Bool) → string_of (name_value b) ≡ seen b
unfolding string_of
string_of_name false = refl
string_of_name true = refl

fetched_models :
    (h : Heap) (o : Option Entry)
    → IsModelled h true o
    → fetched h o ≡ some (slice (length h), alloc h (items business))
unfolding value copied indirect
fetched_models h o m = rw (m.1) (rw (m.2))

module _ {D : Type 0} (ops : Database D) (w : World D) (sid : GoString) (p : ℕ) (a : Account)
    (k : Agrees w a) (here : lookup w.table sid ≡ some p) where
  same_heap : Keeps w.heap w.heap
  same_heap r e = e

  -- The session is still in the table.
  abbrev Changes : Known → World D → Type 0
  Changes x w' = Agrees w' (put_known sid x a) × (lookup w'.table sid ≡ some p)

  pub set-Agrees :
      Returns
        (λ u w'. Changes (record (a sid) { named = true }) w')
        (Session.set ops p name (string iris) w)
  unfolding Session.set str_eq
  set-Agrees =
      Returns-weaken _ _ (set_with ops p name (string iris) false w)
        (set-Returns ops w sid p k.serving here name (string iris) false)
        (λ u w' x. (
          written-Agrees w sid p _ w.heap w' a (record (a sid) { named = true }) k same_heap x
              (rw (k.names sid) (saved_name (a sid).named)) (k.models sid),
          x.in_table,
        ))

  pub set_immutable-Agrees :
      (r : ℕ)
      → get_elem? w.heap r ≡ some (items business)
      → Returns
          (λ u w'. Changes (record (a sid) { modelled = true }) w')
          (Session.set_immutable ops p business_edit (slice r) w)
  unfolding Session.set_immutable str_eq
  set_immutable-Agrees r e =
      Returns-weaken _ _ (set_with ops p business_edit (slice r) true w)
        (set-Returns ops w sid p k.serving here business_edit (slice r) true)
        (λ u w' x. (
          written-Agrees w sid p _ w.heap w' a (record (a sid) { modelled = true }) k same_heap x
              (k.names sid) (saved_models w.heap (a sid).modelled _ r (k.models sid) e),
          x.in_table,
        ))

  pub delete-Agrees :
      Returns (λ u w'. Changes (record (a sid) { named = false }) w') (delete_value ops p name w)
  unfolding str_eq
  delete-Agrees =
      Returns-weaken _ _ (delete_value ops p name w)
        (delete-Returns ops w sid p k.serving here name)
        (λ u w' x. (
          written-Agrees w sid p _ w.heap w' a (record (a sid) { named = false }) k same_heap x refl
              (k.models sid),
          x.in_table,
        ))

  pub clear-Agrees : Returns (λ u w'. Changes unknown w') (clear ops p w)
  clear-Agrees =
      Returns-weaken _ _ (clear ops p w) (clear-Returns ops w sid p k.serving here) (λ u w' x.
        (written-Agrees w sid p _ w.heap w' a unknown k same_heap x refl refl, x.in_table))

module _ {D : Type 0} (w : World D) (sid : GoString) (p : ℕ) (a : Account) (k : Agrees w a)
    (here : lookup w.table sid ≡ some p) where
  pub get_string-Agrees :
      Returns (λ v w'. (v ≡ seen (a sid).named) × Agrees w' a) (get_string p name w)
  unfolding get_string
  get_string-Agrees =
      Returns-continue _ _ (get p name w) _
        (get-Returns w sid p name (name_value (a sid).named) w.heap k.serving here
          (ap (fetched w.heap) (k.names sid) ∙ fetched_name w.heap (a sid).named))
        (λ v w' x. (
          ap string_of x.0 ∙ string_of_name (a sid).named,
          read-Agrees w sid p w.heap w' a k (λ r e. e) x.1,
        ))

  -- The slice that a caller gets is a new one.
  pub get_models-Agrees :
      (a sid).modelled ≡ true
      → Returns
          (λ v w'.
            (v ≡ slice (length w.heap))
            × IsWritten w sid p (stored w sid) (alloc w.heap (items business)) w')
          (get p business_edit w)
  get_models-Agrees there =
      let m : IsModelled w.heap true (stored w sid business_edit) =
        subst (λ b. IsModelled w.heap b (stored w sid business_edit)) there (k.models sid) in
      get-Returns w sid p business_edit _ _ k.serving here (fetched_models w.heap _ m)

  pub get_nothing-Agrees :
      (a sid).modelled ≡ false → Returns (λ v w'. (v ≡ nil) × Agrees w' a) (get p business_edit w)
  get_nothing-Agrees missing =
      let m : stored w sid business_edit ≡ none =
        subst (λ b. IsModelled w.heap b (stored w sid business_edit)) missing (k.models sid) in
      Returns-weaken _ _ (get p business_edit w)
        (get-Returns w sid p business_edit nil w.heap k.serving here (ap (fetched w.heap) m))
        (λ v w' x. (x.0, read-Agrees w sid p w.heap w' a k (λ r e. e) x.1))
