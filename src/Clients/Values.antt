-- ===== src/Clients/Values.antt =====
-- The calls of session.go on the values of one id, for a manager with no database.
use go_sessions.Base.{
  ℕ, GoString, str_eq, ◌≡◌, refl, sym, ◌∙◌, Bool, false, Option, none, some, if◌then◌else◌, arith,
  ap, ◌+◌, ◌-◌, subst, get_elem?,
}
use go_sessions.Base.Outcome.{done}
use go_sessions.Value.{Value, nil, Heap}
use go_sessions.Memstore
use go_sessions.Memstore.{Entry, save, remove, reset, find, value}
use go_sessions.Memstore.Lookup.{saved, find-save, find-remove, IsUnique, remove_lem}
use go_sessions.Memstore.Immutable.{save-IsUnique, removed-IsUnique}
use go_sessions.Database.{Database, Action}
use go_sessions.World.{Session, World, lookup, put}
use go_sessions.World.Laws.{IsFree, get-put, put-put}
use go_sessions.Session.{reading, set_with, delete_value, clear, get}
use go_sessions.Session.Sync.{told, set_with_lem, delete_lem, clear_lem}
use go_sessions.Program.Steady.{read_lock_idle, read_unlock_lem}
use go_sessions.Program.Owners.{IsIdle, AllIdle-get}
use go_sessions.Clients.{
  Returns, stored, stored-Holds, IsServing, Holds, holder, put-IsServing, stored-put,
}

module _ {D : Type 0} where
  -- A call after which one id has the entries `entry`, and every other id what it had.
  pub record IsWritten (w : World D) (sid : GoString) (p : ℕ) (entry : GoString → Option Entry)
      (h : Heap) (w' : World D) : Type 0 where
    pub serving : IsServing w'
    pub in_table : lookup w'.table sid ≡ some p
    pub contents :
        (j key : GoString) → stored w' j key ≡ (if str_eq sid j then entry key else stored w j key)
    pub heap : w'.heap ≡ h

  free :
      (w : World D) (sid : GoString) (p : ℕ) (s : Session)
      → IsServing w
      → Holds w sid p s
      → IsFree w p s
  free w sid p s v h =
      let i = AllIdle-get w.sessions p s v.steady.idle h.found in
      record { found = h.found; unlocked = i.0; unread = i.1 }

module _ {D : Type 0} (ops : Database D) where
  told-IsWritten :
      (w : World D) (sid : GoString) (p : ℕ) (s t s' : Session) (a : Action) (e : Option Entry)
      → IsServing w
      → Holds w sid p s
      → (t.locked ≡ false) × (t.readers ≡ s.readers) × (t.sid ≡ s.sid)
      → IsUnique t.values.entries
      → IsWritten w sid p (find t.values.entries) w.heap (told ops (put p t w) s' a e)
  unfolding told
  told-IsWritten w sid p s t s' a e v h same u =
      let i = AllIdle-get w.sessions p s v.steady.idle h.found in
      let after = put-IsServing w sid p s t v h (same.0, same.1 ∙ i.1) same.2 u in
      record {
        serving = record {
          steady = record {
            mutex = after.steady.mutex;
            idle = after.steady.idle;
            owners = after.steady.owners;
            distinct = after.steady.distinct;
          };
          no_databases = rw (v.no_databases);
          unique = after.unique;
        };
        in_table = h.in_table;
        contents = λ j key. stored-put w sid p s t v h j key;
        heap = refl;
      }

  same_entries :
      (w w' : World D) (sid : GoString) (p : ℕ) (e e' : GoString → Option Entry) (h : Heap)
      → ((k : GoString) → e k ≡ e' k)
      → IsWritten w sid p e h w'
      → IsWritten w sid p e' h w'
  same_entries w w' sid p e e' h same x = record {
    serving = x.serving;
    in_table = x.in_table;
    contents = λ j k.
        x.contents j k
        ∙ ap (λ (y : Option Entry). if str_eq sid j then y else stored w j k) (same k);
    heap = x.heap;
  }

  module _ (w : World D) (sid : GoString) (p : ℕ) (v : IsServing w)
      (here : lookup w.table sid ≡ some p) where
    pub set-Returns :
        (key : GoString) (x : Value) (i : Bool)
        → Returns
            (λ u w'.
              IsWritten w sid p
                (λ k.
                  if str_eq key k then some (saved (stored w sid key) key x i) else stored w sid k)
                w.heap
                w')
            (set_with ops p key x i w)
    set-Returns key x i =
        let (s, h) = holder w sid p v here in
        rw (set_with_lem ops w p s key x i (free w sid p s v h)) (
          same_entries w _ sid p _ _ w.heap
            (λ k.
              (find-save s.values key x i).2 k
              ∙ rw (stored-Holds w sid p s key h) (rw (stored-Holds w sid p s k h)))
            (told-IsWritten w sid p s _ _ _ _ v h (refl, refl, refl)
              (save-IsUnique s.values key x i (v.unique p s h.found))))

    pub delete-Returns :
        (key : GoString)
        → Returns
            (λ u w'.
              IsWritten w sid p (λ k. if str_eq key k then none else stored w sid k) w.heap w')
            (delete_value ops p key w)
    delete-Returns key =
        let (s, h) = holder w sid p v here in
        let u = v.unique p s h.found in
        rw (delete_lem ops w p s key (free w sid p s v h)) (
          same_entries w _ sid p _ _ w.heap
            (λ k. (find-remove s.values key u).1 k ∙ rw (stored-Holds w sid p s k h))
            (told-IsWritten w sid p s _ _ _ _ v h (refl, refl, refl)
              (subst IsUnique (sym (remove_lem s.values key).0)
                (removed-IsUnique s.values.entries key u))))

    pub clear-Returns : Returns (λ u w'. IsWritten w sid p (λ k. none) w.heap w') (clear ops p w)
    unfolding reset find
    clear-Returns =
        let (s, h) = holder w sid p v here in
        rw (clear_lem ops w p s (free w sid p s v h)) (
          same_entries w _ sid p _ _ w.heap (λ k. refl)
            (told-IsWritten w sid p s _ _ _ _ v h (refl, refl, refl) tt))

-- What `Get` of an entry gives.
abbrev pub fetched : Heap → Option Entry → Option (Value × Heap)
fetched h none = some (nil, h)
fetched h (some e) = value h e

get_at :
    (h : Heap) (s : Session) (key : GoString)
    → Memstore.get h s.values key ≡ fetched h (find s.values.entries key)
unfolding Memstore.get Memstore.get_default
get_at h s key = refl

module _ {D : Type 0} where
  reading-some :
      {A : Type 0} (f : Heap → Option (A × Heap)) (w : World D) (a : A) (h : Heap)
      → f w.heap ≡ some (a, h)
      → reading f w ≡ done a (record w { heap = h })
  reading-some f w a h e = rw (e, reading)

  -- The same of `get`, from the heap and the values of the session.
  get_some :
      (w : World D) (p : ℕ) (s : Session) (key : GoString) (x : Value) (h : Heap)
      → get_elem? w.sessions p ≡ some s
      → IsIdle s
      → Memstore.get w.heap s.values key ≡ some (x, h)
      → get p key w
        ≡ done x (put p (record s { readers = s.readers + 1 - 1 }) (record w { heap = h }))
  unfolding get
  get_some w p s key x h found i gives =
      let s' : Session = record s { readers = s.readers + 1 } in
      let w1 : World D = record w { heap = h } in
      rw (read_lock_idle false w p s found i) (
        rw (reading-some (λ g. Memstore.get g s'.values key) (put p s' w) x h gives) (
          rw (read_unlock_lem false (put p s' w1) p s' (get-put w1 p s s' found))
            (rw (put-put w1 p s' (record s { readers = s.readers + 1 - 1 })))))

  pub get-Returns :
      (w : World D) (sid : GoString) (p : ℕ) (key : GoString) (x : Value) (h' : Heap)
      → IsServing w
      → lookup w.table sid ≡ some p
      → fetched w.heap (stored w sid key) ≡ some (x, h')
      → Returns (λ a w'. (a ≡ x) × IsWritten w sid p (stored w sid) h' w') (get p key w)
  get-Returns w sid p key x h' v here gives =
      let (s, h) = holder w sid p v here in
      let i = AllIdle-get w.sessions p s v.steady.idle h.found in
      let t : Session = record s { readers = s.readers + 1 - 1 } in
      let none_left : s.readers + 1 - 1 ≡ 0 = omega (arith, i.1) in
      let after = put-IsServing w sid p s t v h (i.0, none_left) refl (v.unique p s h.found) in
      let gets : Memstore.get w.heap s.values key ≡ some (x, h') =
        get_at w.heap s key ∙ ap (fetched w.heap) (sym (stored-Holds w sid p s key h)) ∙ gives in
      rw (get_some w p s key x h' h.found i gets) (
        refl,
        record {
          serving = record {
            steady = record {
              mutex = after.steady.mutex;
              idle = after.steady.idle;
              owners = after.steady.owners;
              distinct = after.steady.distinct;
            };
            no_databases = v.no_databases;
            unique = after.unique;
          };
          in_table = h.in_table;
          contents = λ j k.
              stored-put w sid p s t v h j k
              ∙ ap (λ (y : Option Entry). if str_eq sid j then y else stored w j k)
                  (sym (stored-Holds w sid p s k h));
          heap = refl;
        },
      )
