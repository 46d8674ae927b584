-- ===== src/Session/Concurrent/Lost.antt =====
-- Two handlers of one client inside `set` of session.go at once.
use go_sessions.Base.{
  ℕ, GoString, str_eq, str_eq_refl, str_eq_iff, arith, ◌≡◌, refl, Bool, ◌∙◌, ap, false, some, none,
  [], ◌∷◌, map, get_elem?,
}
use go_sessions.Base.Outcome.{done}
use go_sessions.Value.{Value}
use go_sessions.Memstore.{Entry, save, find}
use go_sessions.Memstore.Lookup.{saved, find-save}
use go_sessions.Database.{
  Database, SyncPayload, acquire_sync_payload, release_sync_payload, sync_all,
}
use go_sessions.Database.Payload.{sync_all-map, acquire_lem}
use go_sessions.World.{Session, World, put}
use go_sessions.World.Laws.{IsFree, get-put}
use go_sessions.Session.Concurrent.{
  writer, saving, telling, told_all, next_stage, advance, interleave,
}
use go_sessions.Session.Concurrent.Alone.{filled, change, report, saving_lem, reporting_lem}

module _ {D : Type 0} (ops : Database D) (p : ℕ) (w : World D) (s : Session) (f : IsFree w p s)
    (k k' : GoString) (v v' : Value) (i i' : Bool) where
  abbrev s1 : Session
  s1 = filled ops p k v i s

  abbrev entry : Entry
  entry = (save s.values k v i).1

  abbrev w1 : World D
  w1 = put p s1 w

  abbrev late : SyncPayload
  late = report ops p k v i w1 s1 (change ops p k v i s) entry

  abbrev w2 : World D
  w2 = record w1 {
    pool = (acquire_sync_payload w.pool s.sid s1.values s.lifetime (change ops p k v i s)).1;
  }

  abbrev s2 : Session
  s2 = filled ops p k' v' i' s1

  abbrev w3 : World D
  w3 = put p s2 w2

  abbrev early : SyncPayload
  early = report ops p k' v' i' w3 s2 (change ops p k' v' i' s1) (save s1.values k' v' i').1

  abbrev w4 : World D
  w4 = record w3 {
    pool = (acquire_sync_payload w2.pool s.sid s2.values s.lifetime (change ops p k' v' i' s1)).1;
  }

  abbrev w5 : World D
  w5 = record w4 {
    databases = sync_all ops w.clock.now w.heap early w.databases;
    pool = release_sync_payload w4.pool early;
  }

  abbrev w6 : World D
  w6 = record w5 {
    databases = sync_all ops w.clock.now w.heap late w5.databases;
    pool = release_sync_payload w5.pool late;
  }

  found_second : get_elem? w2.sessions p ≡ some s1
  found_second = get-put w p s s1 f.found

  telling_both :
      interleave ops p
        (1 ∷ 0 ∷ [])
        (writer k v i (telling late) ∷ writer k' v' i' (telling early) ∷ [])
        w4
      ≡ done (writer k v i told_all ∷ writer k' v' i' told_all ∷ []) w6
  unfolding interleave advance next_stage
  telling_both = refl

  steps_lem :
      interleave ops p
        (0 ∷ 0 ∷ 1 ∷ 1 ∷ 1 ∷ 0 ∷ [])
        (writer k v i saving ∷ writer k' v' i' saving ∷ [])
        w
      ≡ done (writer k v i told_all ∷ writer k' v' i' told_all ∷ []) w6
  unfolding interleave
  steps_lem =
      rw (saving_lem ops p k v i w s f, interleave)
        (rw (reporting_lem ops p k v i w1 s1 (change ops p k v i s) entry found_second, interleave)
          (rw
            (
              saving_lem ops p k' v' i' w2 s1
                  (record { found = found_second; unlocked = refl; unread = f.unread }),
              interleave,
            )
            (rw
              (
                reporting_lem ops p k' v' i' w3 s2 (change ops p k' v' i' s1)
                    (save s1.values k' v' i').1 (get-put w2 p s1 s2 found_second),
                interleave,
              )
              telling_both)))

  -- Two handlers of one client, which nobody else holds, each in a `Set` or `SetImmutable` under a
  -- key of its own, the second one's new, where the first one has made its payload before the second
  -- one saves, and tells it last: both return, and the session has both entries, but the databases,
  -- told of both entries by the second handler, are then told of a session without the second one's.
  pub set_lost :
      find s.values.entries k' ≡ none
      → str_eq k k' ≡ false
      → (w' : World D) × (t : Session) × (q q' : SyncPayload) × (interleave ops p
            (0 ∷ 0 ∷ 1 ∷ 1 ∷ 1 ∷ 0 ∷ [])
            (writer k v i saving ∷ writer k' v' i' saving ∷ [])
            w
          ≡ done (writer k v i told_all ∷ writer k' v' i' told_all ∷ []) w')
        × (get_elem? w'.sessions p ≡ some t)
        × (find t.values.entries k ≡ some (saved (find s.values.entries k) k v i))
        × (find t.values.entries k' ≡ some (saved none k' v' i'))
        × (w'.databases
            ≡ map
                (ops.sync w.clock.now w.heap q)
                (map (ops.sync w.clock.now w.heap q') w.databases))
        × (q'.session_id ≡ s.sid)
        × (q'.store.values ≡ t.values)
        × (q.session_id ≡ s.sid)
        × (find q.store.values.entries k' ≡ none)
  set_lost new differ =
      let unseen : find s1.values.entries k' ≡ none =
        (find-save s.values k v i).2 k' ∙ rw differ new in
      let apart : str_eq k' k ≡ false = ground (arith, str_eq_iff k k', str_eq_iff k' k) in
      let a = acquire_lem w.pool s.sid s1.values s.lifetime (change ops p k v i s) in
      let b = acquire_lem w2.pool s.sid s2.values s.lifetime (change ops p k' v' i' s1) in
      (
        w6,
        s2,
        late,
        early,
        steps_lem,
        get-put w2 p s1 s2 found_second,
        (find-save s1.values k' v' i').2 k
            ∙ rw apart ((find-save s.values k v i).2 k ∙ rw (str_eq_refl k)),
        (find-save s1.values k' v' i').2 k' ∙ rw (str_eq_refl k') (rw unseen),
        sync_all-map ops w.clock.now w.heap late w5.databases
            ∙ ap (map (ops.sync w.clock.now w.heap late))
                (sync_all-map ops w.clock.now w.heap early w.databases),
        b.0,
        ap (λ r. r.values) b.2,
        a.0,
        ap (λ r. find r.values.entries k') a.2 ∙ unseen,
      )
