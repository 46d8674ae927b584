-- ===== src/Examples/Writers.antt =====
-- Handlers inside one session at once, at concrete inputs.
use go_sessions.Base.{
  ℕ, zero, suc, ◌≤◌, codes, str_eq, ◌≡◌, ◌↔◌, refl, true, false, none, some, List, [], ◌∷◌,
  get_elem?,
}
use go_sessions.Base.Int.{pos}
use go_sessions.Base.Outcome.{done}
use go_sessions.Value.{int}
use go_sessions.Memstore.{find, save}
use go_sessions.Memstore.Lookup.{saved}
use go_sessions.Database.{SyncPayload}
use go_sessions.World.{Session, World, lock, unlock, deref, store}
use go_sessions.Session.Concurrent.{writer, saving, told_all, interleave}
use go_sessions.Session.Concurrent.Lost.{set_lost}
use go_sessions.Session.Section
use go_sessions.Session.Section.{Saver, Place, arriving, writing}
use go_sessions.Session.Section.Serial.{save_all, writers, count_inside, sets_serial}
use go_sessions.Examples.Requests.{journal, running, visitor, running-IsFree}
use go_sessions.Examples.Programs.{Journal}

no_y : find visitor.values.entries (codes "y") ≡ none
unfolding find str_eq
no_y = refl

apart : str_eq (codes "x") (codes "y") ≡ false
unfolding str_eq
apart = refl

set_lost_example :
    (w' : World Journal) × (t : Session) × (q q' : SyncPayload) × (interleave journal 0
        (0 ∷ 0 ∷ 1 ∷ 1 ∷ 1 ∷ 0 ∷ [])
        (writer (codes "x") (int (pos 1)) false saving
          ∷ writer (codes "y") (int (pos 2)) false saving
          ∷ [])
        running
      ≡ done
          (writer (codes "x") (int (pos 1)) false told_all
            ∷ writer (codes "y") (int (pos 2)) false told_all
            ∷ [])
          w')
    × (get_elem? w'.sessions 0 ≡ some t)
    × (find t.values.entries (codes "x")
        ≡ some (saved (find visitor.values.entries (codes "x")) (codes "x") (int (pos 1)) false))
    × (find t.values.entries (codes "y") ≡ some (saved none (codes "y") (int (pos 2)) false))
    × (w'.databases ≡ (q ∷ q' ∷ []) ∷ [])
    × (q'.session_id ≡ codes "s1")
    × (q'.store.values ≡ t.values)
    × (q.session_id ≡ codes "s1")
    × (find q.store.values.entries (codes "y") ≡ none)
set_lost_example =
    set_lost journal 0 running visitor running-IsFree (codes "x") (codes "y") (int (pos 1))
      (int (pos 2)) false false no_y apart

abbrev placed : Place → ℕ → Saver
placed place n = record { key = codes "x"; value = int (pos n); immutable = false; place = place }

abbrev arrives : ℕ → Saver
arrives n = placed arriving n

-- The first handler waits while the second one is inside, and the third never takes a step.
abbrev crew : List Saver
crew = arrives 1 ∷ arrives 2 ∷ arrives 3 ∷ []

abbrev turns : List ℕ
turns = 1 ∷ 0 ∷ 1 ∷ 0 ∷ 1 ∷ 1 ∷ 0 ∷ 0 ∷ 0 ∷ 7 ∷ []

all_arriving : (n : ℕ) (x : Saver) → get_elem? crew n ≡ some x → x.place ≡ arriving
all_arriving zero x e = cc
all_arriving (suc zero) x e = cc
all_arriving (suc (suc zero)) x e = cc
all_arriving (suc (suc (suc n))) x e = cc

sets_serial_example :
    (ys : List Saver) × (w' : World Journal) × (t : Session) × (Section.interleave 0 turns crew
        running
      ≡ done ys w')
    × (get_elem? w'.sessions 0 ≡ some t)
    × (t.values ≡ save_all visitor.values (writers 0 turns crew running))
    × (count_inside ys ≤ 1)
    × ((t.locked ≡ true) ↔ (count_inside ys ≡ 1))
sets_serial_example = sets_serial 0 turns crew running visitor running-IsFree all_arriving

crew_tested :
    writers 0 turns crew running
    ≡ placed (writing visitor.values) 2
      ∷ placed (writing (save visitor.values (codes "x") (int (pos 2)) false).0) 1
      ∷ []
unfolding Section.advance Section.next_place lock unlock deref store
crew_tested = refl
