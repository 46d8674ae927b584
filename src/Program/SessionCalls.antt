-- ===== src/Program/SessionCalls.antt =====
-- The methods of session.go keep the state steady.
use go_sessions.Base.{ℕ, GoString, refl, Bool, false, if◌then◌else◌, Option, some, [], ◌==◌}
use go_sessions.Base.Outcome.{pure}
use go_sessions.Value.{Value}
use go_sessions.Memstore.{Entry, save, remove, reset, visit}
use go_sessions.Memstore
use go_sessions.Database.{Database, Action}
use go_sessions.World.{Session, World, insert, delete}
use go_sessions.Session.{
  sync_databases, set_action, set_with, delete_value, clear, get, get_all, collect, run_flash_gc,
  get_flashes, set_flash, delete_flash, clear_flashes, collect_garbage, mark_all, flash_values,
}
use go_sessions.Program.Steady.{IsSteady, Ends-continue, Ends-lock, Ends-read, Keeps, lock-Keeps}

module _ {D : Type 0} (ops : Database D) (held : Bool) where
  pub sync_databases-Keeps :
      (s : Session) (a : Action) (e : Option Entry) (w : World D)
      → IsSteady held w
      → Keeps held (sync_databases ops s a e w)
  unfolding sync_databases
  sync_databases-Keeps s a e w v = record {
    mutex = v.mutex;
    idle = v.idle;
    owners = v.owners;
    distinct = v.distinct;
  }

  pub set_with-Keeps :
      (p : ℕ) (key : GoString) (v : Value) (i : Bool) (w : World D)
      → IsSteady held w
      → Keeps held (set_with ops p key v i w)
  unfolding set_with
  set_with-Keeps p key v i w steady =
      Ends-lock held (λ a w'. IsSteady held w')
        (λ s. record s { values = (save s.values key v i).0; is_new = false })
        (λ s.
          sync_databases ops (record s { values = (save s.values key v i).0; is_new = false })
            (set_action (Memstore.len s.values == 0) (save s.values key v i).2)
            (some (save s.values key v i).1))
        p w (λ s. (refl, refl)) steady (λ s w' v'. sync_databases-Keeps _ _ _ w' v')

  pub delete_value-Keeps :
      (p : ℕ) (key : GoString) (w : World D)
      → IsSteady held w
      → Keeps held (delete_value ops p key w)
  unfolding delete_value
  delete_value-Keeps p key w steady =
      Ends-lock held (λ a w'. IsSteady held w')
        (λ s. record s {
          values = (remove s.values key).0;
          is_new = if (remove s.values key).1 then false else s.is_new;
        })
        _ p w (λ s. (refl, refl)) steady
        (λ s w' v'.
          Ends-continue (λ a u. IsSteady held u) (λ a u. IsSteady held u) _ _
            (sync_databases-Keeps _ _ _ w' v') (λ a u x. x))

  pub clear-Keeps : (p : ℕ) (w : World D) → IsSteady held w → Keeps held (clear ops p w)
  unfolding clear
  clear-Keeps p w steady =
      Ends-lock held (λ a w'. IsSteady held w')
        (λ s. record s { values = reset s.values; is_new = false }) _ p w (λ s. (refl, refl)) steady
        (λ s w' v'. sync_databases-Keeps _ _ _ w' v')

module _ {D : Type 0} (held : Bool) (p : ℕ) (w : World D) (steady : IsSteady held w) where
  pub get-Keeps : (key : GoString) → Keeps held (get p key w)
  unfolding get
  get-Keeps key = Ends-read held (λ s h. Memstore.get h s.values key) p w steady

  pub get_all-Keeps : Keeps held (get_all p w)
  unfolding get_all
  get_all-Keeps = Ends-read held (λ s h. visit collect h s.values.entries []) p w steady

  pub run_flash_gc-Keeps : Keeps held (run_flash_gc p w)
  unfolding run_flash_gc
  run_flash_gc-Keeps =
      lock-Keeps held (λ s. record s { flashes = collect_garbage s.flashes }) p w
        (λ s. (refl, refl)) steady

  pub get_flashes-Keeps : Keeps held (get_flashes p w)
  unfolding get_flashes
  get_flashes-Keeps =
      Ends-lock held (λ a w'. IsSteady held w') (λ s. record s { flashes = mark_all s.flashes })
        (λ s. pure (flash_values s.flashes)) p w (λ s. (refl, refl)) steady (λ s w' v'. v')

  pub set_flash-Keeps : (key : GoString) (v : Value) → Keeps held (set_flash p key v w)
  unfolding set_flash
  set_flash-Keeps key v =
      lock-Keeps held
        (λ s. record s {
          flashes = insert s.flashes key (record { should_remove = false; value = v });
        })
        p w (λ s. (refl, refl)) steady

  pub delete_flash-Keeps : (key : GoString) → Keeps held (delete_flash p key w)
  unfolding delete_flash
  delete_flash-Keeps key =
      lock-Keeps held (λ s. record s { flashes = delete s.flashes key }) p w (λ s. (refl, refl))
        steady

  pub clear_flashes-Keeps : Keeps held (clear_flashes p w)
  unfolding clear_flashes
  clear_flashes-Keeps =
      lock-Keeps held (λ s. record s { flashes = [] }) p w (λ s. (refl, refl)) steady
