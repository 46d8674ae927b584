-- ===== src/Memstore/Panics.antt =====
-- Where `Get` of memstore.go panics.
use go_sessions.Base.{GoString, str_eq_refl, ◌≡◌, refl, ◌↔◌, true, none, some}
use go_sessions.Value.{Value, nil, pointer, nil_pointer, Heap, target_at, indirect}
use go_sessions.Memstore.{Entry, Store, value, find, get, get_default, set_immutable}
use go_sessions.Memstore.Lookup.{find-save}

abbrev frozen : GoString → Value → Entry
frozen key v = record { key = key; value_raw = v; immutable = true }

get_set_immutable :
    (h : Heap) (r : Store) (key : GoString) (v : Value)
    → find r.entries key ≡ none
    → get h (set_immutable r key v).0 key ≡ value h (frozen key v)
unfolding get get_default set_immutable
get_set_immutable h r key v absent =
    rw ((find-save r key v true).2 key, get_default) (rw (str_eq_refl key) (rw absent))

-- What `reflect.ValueOf` and `reflect.Indirect` make the zero `reflect.Value` of.
abbrev pub IsNil : Value → Type 0
IsNil nil = Unit {0}
IsNil nil_pointer = Unit {0}
IsNil v = ⊥

-- A pointer that is not nil points to a value.
abbrev pub PointsTo : Heap → Value → Type 0
PointsTo h (pointer r) = (vv : Value) × (target_at h r ≡ some vv)
PointsTo h v = Unit {0}

value_panics :
    (h : Heap) (key : GoString) (v : Value)
    → PointsTo h v
    → (value h (frozen key v) ≡ none) ↔ IsNil v
unfolding value indirect
value_panics h key nil points = (λ p. tt, λ n. refl)
value_panics h key nil_pointer points = (λ p. tt, λ n. refl)
value_panics h key (pointer r) points = rw (points.1) ((λ p. cc), (λ n. absurd n))
value_panics h key v points = ((λ p. cc), (λ n. absurd n))

-- `Get` of a key that the store did not have and `SetImmutable` added panics exactly where the
-- value is nil or a nil pointer. A pointer that is not nil points to a value.
pub immutable_panics :
    (h : Heap) (r : Store) (key : GoString) (v : Value)
    → find r.entries key ≡ none
    → PointsTo h v
    → (get h (set_immutable r key v).0 key ≡ none) ↔ IsNil v
immutable_panics h r key v absent points =
    rw (get_set_immutable h r key v absent) (value_panics h key v points)
