-- ===== src/Applications/Standalone/Answers/Copies.antt =====
-- The copy of the models that a handler of _examples/standalone/main.go gets, and the account.
use go_sessions.Base.{
  ℕ, GoString, codes, str_eq, ◌≡◌, refl, ◌∙◌, ap, List, [], ◌∷◌, length, get_elem?-append_last,
}
use go_sessions.Base.Outcome.{done}
use go_sessions.Value.{Value, string, slice, Cell, items, Heap, items_at, alloc, write}
use go_sessions.World.{World}
use go_sessions.Clients.{stored, IsServing}
use go_sessions.Clients.Values.{IsWritten}
use go_sessions.Applications.Standalone.{
  edward, business, remains_text, rename_first, first_name, show_first,
}
use go_sessions.Applications.Standalone.Account.{Account}
use go_sessions.Applications.Standalone.Answers.{
  Keeps, write-Keeps, IsModelled-Keeps, Agrees, read-Agrees,
}

abbrev renamed : List Value
renamed = string (codes "Gabriel") ∷ string (codes "value 2") ∷ []

module _ {D : Type 0} where
  heap-IsServing : (w : World D) (h : Heap) → IsServing w → IsServing (record w { heap = h })
  heap-IsServing w h v = record {
    steady = record {
      mutex = v.steady.mutex;
      idle = v.steady.idle;
      owners = v.steady.owners;
      distinct = v.steady.distinct;
    };
    no_databases = v.no_databases;
    unique = v.unique;
  }

  pub heap-Agrees :
      (w : World D) (h : Heap) (a : Account)
      → Agrees w a
      → Keeps w.heap h
      → Agrees (record w { heap = h }) a
  heap-Agrees w h a k keeps = record {
    serving = heap-IsServing w h k.serving;
    names = k.names;
    models = λ j. IsModelled-Keeps w.heap h (a j).modelled _ keeps (k.models j);
  }

  -- The copy that a handler got is its own to write.
  pub renamed-Agrees :
      (w : World D) (sid : GoString) (p : ℕ) (a : Account) (c d : Cell) (w' : World D)
      → Agrees w a
      → IsWritten w sid p (stored w sid) (alloc w.heap c) w'
      → Agrees (record w' { heap = write (alloc w.heap c) (length w.heap) d }) a
  renamed-Agrees w sid p a c d w' k x =
      read-Agrees w sid p (write (alloc w.heap c) (length w.heap) d) _ a k (write-Keeps w.heap c d)
        (record {
          serving = heap-IsServing w' _ x.serving;
          in_table = x.in_table;
          contents = x.contents;
          heap = refl;
        })

  rename_at :
      (w : World D) (r : ℕ)
      → items_at w.heap r ≡ business
      → rename_first (slice r) w ≡ done tt (record w { heap = write w.heap r (items renamed) })
  unfolding rename_first
  rename_at w r e = rw (e, rename_first)

  items_new :
      (w : World D) (h : Heap)
      → w.heap ≡ alloc h (items business)
      → items_at w.heap (length h) ≡ business
  items_new w h e = rw e (rw (get_elem?-append_last h (items business)))

  pub rename_lem :
      (w : World D) (h : Heap)
      → w.heap ≡ alloc h (items business)
      → rename_first (slice (length h)) w
        ≡ done tt (record w { heap = write (alloc h (items business)) (length h) (items renamed) })
  rename_lem w h e =
      rename_at w (length h) (items_new w h e)
      ∙ ap (λ g. done tt (record w { heap = write g (length h) (items renamed) })) e

  pub first_lem :
      (w : World D) (h : Heap)
      → w.heap ≡ alloc h (items business)
      → show_first (slice (length h)) w ≡ done (remains_text edward) w
  unfolding show_first first_name str_eq
  first_lem w h e = rw (items_new w h e, first_name)
