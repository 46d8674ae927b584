-- ===== src/Examples/Concurrent.antt =====
-- Requests inside the provider at once, at concrete inputs.
use go_sessions.Base.{
  ℕ, codes, str_eq, false, ◌≡◌, ◌≢◌, ◌⊎◌, refl, none, some, List, [], ◌∷◌, get_elem?,
}
use go_sessions.Base.Int.{pos}
use go_sessions.Base.Outcome.{done, panics}
use go_sessions.Value.{int}
use go_sessions.Memstore.{find}
use go_sessions.Memstore.Lookup.{saved}
use go_sessions.Session.{set_with}
use go_sessions.World.{Session, World, lookup}
use go_sessions.Provider.{read}
use go_sessions.Provider.Concurrent.{Reader, reader, asking, making, finished, interleave}
use go_sessions.Provider.Concurrent.Race.{two_sessions}
use go_sessions.Provider.Concurrent.Safety.{IsSound, interleave_returns}
use go_sessions.Examples.Requests.{journal, running}
use go_sessions.Examples.Programs.{Journal, running-IsSteady}

abbrev no_databases : World Journal
no_databases = record running { databases = [] }

unknown : lookup no_databases.table (codes "s2") ≡ none
unfolding lookup str_eq
unknown = refl

abbrev both : List Reader
both = reader (codes "s2") asking ∷ reader (codes "s2") asking ∷ []

two_sessions_example :
    (w' w1 w2 : World Journal) × (p q : ℕ) × (s t : Session) × (interleave journal
        (pos 0)
        (0 ∷ 1 ∷ 0 ∷ 1 ∷ 0 ∷ 1 ∷ [])
        both
        no_databases
      ≡ done (reader (codes "s2") (finished p) ∷ reader (codes "s2") (finished q) ∷ []) w')
    × (p ≢ q)
    × (set_with journal p (codes "k") (int (pos 1)) false w' ≡ done tt w1)
    × (get_elem? w1.sessions p ≡ some s)
    × (s.sid ≡ codes "s2")
    × (find s.values.entries (codes "k") ≡ some (saved none (codes "k") (int (pos 1)) false))
    × (read journal (codes "s2") (pos 0) w1 ≡ done q w2)
    × (get_elem? w2.sessions q ≡ some t)
    × (t.sid ≡ codes "s2")
    × (find t.values.entries (codes "k") ≡ none)
two_sessions_example =
    two_sessions journal (codes "s2") (pos 0) no_databases (codes "k") (int (pos 1)) false refl refl
      unknown

abbrev crowd : List Reader
crowd =
    reader (codes "s1") (finished 0) ∷ reader (codes "s2") making ∷ reader (codes "s1") asking ∷ []

interleave_returns_example :
    ((rs : List Reader) × (w : World Journal) × (interleave journal
          (pos 60)
          (1 ∷ 2 ∷ 1 ∷ [])
          crowd
          running
        ≡ done rs w)
      × IsSound rs w)
    ⊎ ((w : World Journal) × (interleave journal (pos 60) (1 ∷ 2 ∷ 1 ∷ []) crowd running
          ≡ panics w))
interleave_returns_example =
    interleave_returns journal (pos 60) (1 ∷ 2 ∷ 1 ∷ []) crowd running
      (running-IsSteady, ((_, refl, refl), tt))
