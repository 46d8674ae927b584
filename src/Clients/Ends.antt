-- ===== src/Clients/Ends.antt =====
-- `Destroy` and `UpdateExpiration` for one client, for a manager with no database.
use go_sessions.Base.{
  ℕ, GoString, str_eq, ◌≡◌, refl, sym, false, not, ◌&&◌, Option, none, some, [], if◌then◌else◌,
  Bool-cases, Option-cases, inl, inr,
}
use go_sessions.Base.Int.{ℤ, pos, leb_ℤ}
use go_sessions.Memstore.{Entry}
use go_sessions.Database.{Database}
use go_sessions.World.{World, lookup, unlock_provider}
use go_sessions.World.Laws.{lookup-delete, lock_provider_free, deref_lem}
use go_sessions.Session.Sync.{told}
use go_sessions.Session.Flash.{delete-IsMap}
use go_sessions.Provider
use go_sessions.Provider.{destroy_found, shift_found}
use go_sessions.Provider.Table.{destroy_lem}
use go_sessions.Cookie.{Request, get_cookie}
use go_sessions.Config.{Config, Generator}
use go_sessions.Sessions
use go_sessions.Sessions.{request_sid}
use go_sessions.Sessions.Roundtrip.{request_sid_lem}
use go_sessions.Program.Owners.{HasOwners-delete}
use go_sessions.Clients.{
  Returns, Returns-continue, stored, IsServing, holder, kept-IsServing, nothing_stored,
}
use go_sessions.Clients.Start.{Identifies}

module _ {D : Type 0} where
  -- A call after which `entry` stands under each key of each id.
  pub record Leaves (w : World D) (entry : GoString → GoString → Option Entry) (w' : World D)
      : Type 0 where
    pub serving : IsServing w'
    pub contents : (j key : GoString) → stored w' j key ≡ entry j key
    pub heap : w'.heap ≡ w.heap

  -- The id is gone.
  abbrev pub but_for : World D → GoString → GoString → GoString → Option Entry
  but_for w sid j key = if str_eq sid j then none else stored w j key

module _ {D : Type 0} (ops : Database D) where
  pub destroy-Returns :
      (w : World D) (sid : GoString)
      → IsServing w
      → Returns (λ u w'. Leaves w (but_for w sid) w') (Provider.destroy ops sid w)
  unfolding Provider.destroy told unlock_provider
  destroy-Returns w sid v = elim (Option-cases (lookup w.table sid)) [
    | inl gone ↦
        rw (lock_provider_free w v.steady.mutex, Provider.destroy)
          (rw (gone, destroy_found)
            (record {
              serving = kept-IsServing w w.clock w.heap v;
              contents = λ j key. sym (nothing_stored w sid j key gone);
              heap = refl;
            }))
    | inr (p, there) ↦
        let (s, h) = holder w sid p v there in
        rw (destroy_lem ops w sid p s v.steady.mutex there h.found) (record {
          serving = record {
            steady = record {
              mutex = refl;
              idle = v.steady.idle;
              owners = HasOwners-delete w.table w.sessions s.sid v.steady.owners;
              distinct = delete-IsMap w.table s.sid v.steady.distinct;
            };
            no_databases = rw (v.no_databases);
            unique = v.unique;
          };
          contents = λ j key.
              rw (lookup-delete w.table s.sid j)
                (rw (h.named) (elim (Bool-cases (str_eq sid j)) [ inl e ↦ rw e | inr e ↦ rw e ]));
          heap = refl;
        })
  ]

module _ {D : Type 0} where
  pub update-Returns :
      (w : World D) (sid : GoString) (expires : ℤ)
      → IsServing w
      → Returns (λ b w'. Leaves w (stored w) w') (Provider.update_expiration sid expires w)
  unfolding Provider.update_expiration unlock_provider shift_found
  update-Returns w sid expires v = elim (Bool-cases (leb_ℤ expires (pos 0))) [
    | inl e ↦
        rw (e, Provider.update_expiration)
          (record { serving = v; contents = λ j key. refl; heap = refl })
    | inr e ↦
        rw (e, Provider.update_expiration)
          (rw (lock_provider_free w v.steady.mutex) (found_Returns (lookup w.table sid) refl))
  ]
    where
      found_Returns :
          (o : Option ℕ)
          → lookup w.table sid ≡ o
          → Returns
              (λ b w'. Leaves w (stored w) w')
              (shift_found expires o (record w { locked = false }))
      found_Returns none e = record {
        serving = kept-IsServing w w.clock w.heap v;
        contents = λ j key. refl;
        heap = refl;
      }
      found_Returns (some p) e =
          let (s, h) = holder w sid p v e in
          rw (deref_lem (record w { locked = false }) p s h.found, shift_found)
            (record {
              serving = kept-IsServing w _ w.heap v;
              contents = λ j key. refl;
              heap = refl;
            })

module _ {D : Type 0} (c : Config) (g : Generator) (known : GoString → GoString)
    (i : Identifies c g known) where
  pub update_request-Returns :
      (w : World D) (unlimited : ℕ) (r : Request) (expires : ℤ)
      → IsServing w
      → Returns
          (λ cookies w'. Leaves w (stored w) w')
          (Sessions.update_expiration c unlimited r expires w)
  unfolding Sessions.update_expiration
  update_request-Returns w unlimited r expires v =
      rw
        (request_sid_lem c (get_cookie r c.cookie) _ w (i.identifies _), Sessions.update_expiration)
        (elim (Bool-cases (str_eq (known (get_cookie r c.cookie)) [])) [
          | inl e ↦ rw e (record { serving = v; contents = λ j key. refl; heap = refl })
          | inr e ↦ rw e (
              Returns-continue _ _
                (Provider.update_expiration (known (get_cookie r c.cookie)) expires w) _
                (update-Returns w (known (get_cookie r c.cookie)) expires v) (λ b u x. x))
        ])

  -- A request whose cookie has no id destroys nothing.
  pub destroy_request-Returns :
      (ops : Database D) (w : World D) (r : Request)
      → IsServing w
      → Returns
          (λ cookies w'.
            Leaves w
              (λ j key.
                if not (str_eq (known (get_cookie r c.cookie)) [])
                  && str_eq (known (get_cookie r c.cookie)) j
                then none
                else stored w j key)
              w')
          (Sessions.destroy ops c r w)
  unfolding Sessions.destroy Sessions.destroy_cookie
  destroy_request-Returns ops w r v =
      rw (request_sid_lem c (get_cookie r c.cookie) _ w (i.identifies _), Sessions.destroy)
        (elim (Bool-cases (str_eq (known (get_cookie r c.cookie)) [])) [
          | inl e ↦ rw e (record { serving = v; contents = λ j key. refl; heap = refl })
          | inr e ↦ rw e (
              Returns-continue _ _ (Provider.destroy ops (known (get_cookie r c.cookie)) w) _
                (destroy-Returns ops w (known (get_cookie r c.cookie)) v) (λ b u x. x))
        ])
