-- ===== src/Applications/Standalone/Answers.antt =====
-- The server of _examples/standalone/main.go answers what its account says.
pub mod Values
pub mod Copies
pub mod Requests
pub mod Served
use go_sessions.Base.{
  ℕ, suc, GoString, str_eq, str_eq_refl, str_eq_sound, ◌≡◌, ◌≢◌, refl, sym, ◌∙◌, ap, subst, Bool,
  true, false, ◌&&◌, not, Option, none, some, List, [], ◌∷◌, ◌++◌, length, get_elem?,
  get_elem?-append, get_elem?-append_last, get_elem?-lt, get_elem?-set_ne, map, if◌then◌else◌,
  Bool-cases, inl, inr, arith,
}
use go_sessions.Base.Outcome.{done}
use go_sessions.Value.{Value, nil, string, slice, Cell, items, Heap, items_at, alloc, write}
use go_sessions.Memstore.{Entry, value, overwrite, copied}
use go_sessions.Memstore.Lookup.{saved}
use go_sessions.Database.{Database}
use go_sessions.World.{World, lookup}
use go_sessions.Session.{set, set_with, set_immutable, delete_value, clear, get}
use go_sessions.Session.Values.{get_string, string_of}
use go_sessions.Clients.{Returns, Returns-continue, Returns-weaken, stored, IsServing}
use go_sessions.Clients.Values.{
  IsWritten, set-Returns, delete-Returns, clear-Returns, get-Returns, fetched,
}
use go_sessions.Clients.Start.{IsStarted}
use go_sessions.Clients.Ends.{Leaves}
use go_sessions.Applications.Standalone.{name, business_edit, iris, edward, business}
use go_sessions.Applications.Standalone.Account.{Known, unknown, Account, put_known, opened}

abbrev pub name_entry : Bool → Option Entry
name_entry false = none
name_entry true = some (record { key = name; value_raw = string iris; immutable = false })

-- An immutable entry for a slice that still has its models.
abbrev pub IsModelled : Heap → Bool → Option Entry → Type 0
IsModelled h false o = o ≡ none
IsModelled h true o =
    (r : ℕ) × (o ≡ some (record { key = business_edit; value_raw = slice r; immutable = true }))
    × (get_elem? h r ≡ some (items business))

-- Slices with models keep them.
abbrev pub Keeps : Heap → Heap → Type 0
Keeps h h' =
    (r : ℕ) → get_elem? h r ≡ some (items business) → get_elem? h' r ≡ some (items business)

pub IsModelled-Keeps :
    (h h' : Heap) (b : Bool) (o : Option Entry) → Keeps h h' → IsModelled h b o → IsModelled h' b o
IsModelled-Keeps h h' false o k m = m
IsModelled-Keeps h h' true o k m = (m.0, m.1, k m.0 m.2)

pub alloc-Keeps : (h : Heap) (c : Cell) → Keeps h (alloc h c)
alloc-Keeps h c r e = get_elem?-append h (c ∷ []) r (get_elem?-lt h r (items business) e) ∙ e

-- A write to a cell that is new.
pub write-Keeps : (h : Heap) (c d : Cell) → Keeps h (write (alloc h c) (length h) d)
write-Keeps h c d r e =
    let ne : length h ≢ r = λ q. omega (arith, q, get_elem?-lt h r (items business) e) in
    get_elem?-set_ne (alloc h c) (length h) r d ne ∙ alloc-Keeps h c r e

module _ {D : Type 0} where
  -- The sessions hold what the account says.
  pub record Agrees (w : World D) (a : Account) : Type 0 where
    pub serving : IsServing w
    pub names : (j : GoString) → stored w j name ≡ name_entry (a j).named
    pub models : (j : GoString) → IsModelled w.heap (a j).modelled (stored w j business_edit)

  pub started-Agrees :
      (w : World D) (sid : GoString) (fresh : Bool) (p : ℕ) (w' : World D) (a : Account)
      → Agrees w a
      → IsStarted w sid fresh p w'
      → Agrees w' (opened fresh sid a)
  started-Agrees w sid fresh p w' a k x = record {
    serving = x.serving;
    names = λ j.
        x.contents j name
        ∙ elim (Bool-cases (fresh && str_eq sid j)) [ inl e ↦ rw e | inr e ↦ rw e (k.names j) ];
    models = λ j. rw (x.contents j business_edit) (elim (Bool-cases (fresh && str_eq sid j)) [
      | inl e ↦ rw e
      | inr e ↦ rw e (rw (x.heap) (k.models j))
    ]);
  }

  -- A call that writes the entries of one id.
  pub written-Agrees :
      (w : World D) (sid : GoString) (p : ℕ) (entry : GoString → Option Entry) (h : Heap)
      (w' : World D) (a : Account) (k : Known)
      → Agrees w a
      → Keeps w.heap h
      → IsWritten w sid p entry h w'
      → entry name ≡ name_entry k.named
      → IsModelled h k.modelled (entry business_edit)
      → Agrees w' (put_known sid k a)
  written-Agrees w sid p entry h w' a k agrees keeps x named modelled = record {
    serving = x.serving;
    names = λ j.
        x.contents j name
        ∙ elim (Bool-cases (str_eq sid j)) [ inl e ↦ rw e named | inr e ↦ rw e (agrees.names j) ];
    models = λ j. rw (x.contents j business_edit) (
        rw (x.heap) (elim (Bool-cases (str_eq sid j)) [
          | inl e ↦ rw e modelled
          | inr e ↦ rw e (IsModelled-Keeps w.heap h (a j).modelled _ keeps (agrees.models j))
        ]));
  }

  -- A call that reads the entries of one id.
  pub read-Agrees :
      (w : World D) (sid : GoString) (p : ℕ) (h : Heap) (w' : World D) (a : Account)
      → Agrees w a
      → Keeps w.heap h
      → IsWritten w sid p (stored w sid) h w'
      → Agrees w' a
  read-Agrees w sid p h w' a agrees keeps x =
      let same : (j key : GoString) → stored w' j key ≡ stored w j key = λ j key.
        x.contents j key ∙ elim (Bool-cases (str_eq sid j)) [
          | inl e ↦ rw e (ap (λ i. stored w i key) (str_eq_sound sid j e))
          | inr e ↦ rw e
        ] in
      record {
        serving = x.serving;
        names = λ j. same j name ∙ agrees.names j;
        models = λ j.
            rw (same j business_edit)
              (rw (x.heap) (IsModelled-Keeps w.heap h (a j).modelled _ keeps (agrees.models j)));
      }

  pub left-Agrees :
      (w : World D) (sid : GoString) (b : Bool) (w' : World D) (a : Account)
      → Agrees w a
      → Leaves w (λ j key. if b && str_eq sid j then none else stored w j key) w'
      → Agrees w' (opened b sid a)
  left-Agrees w sid b w' a k x = record {
    serving = x.serving;
    names = λ j.
        x.contents j name
        ∙ elim (Bool-cases (b && str_eq sid j)) [ inl e ↦ rw e | inr e ↦ rw e (k.names j) ];
    models = λ j. rw (x.contents j business_edit) (elim (Bool-cases (b && str_eq sid j)) [
      | inl e ↦ rw e
      | inr e ↦ rw e (rw (x.heap) (k.models j))
    ]);
  }
