-- ===== src/Sessiondb/File/Persistence.antt =====
-- What sessiondb/file/database.go loads after it was told something.
use go_sessions.Base.{ℕ, GoString, str_eq, ◌≡◌, false, if◌then◌else◌, Bool-cases, inl, inr}
use go_sessions.Value.{Heap}
use go_sessions.Database.{RemoteStore, SyncPayload, zero_remote}
use go_sessions.Sessiondb.{Gob, IsFaithful, KeepsBasic, AllBasic, is_destroy}
use go_sessions.Sessiondb.File.{
  Contents, unopened, unreadable, contents, FileSystem, FileDatabase, sess_path, override, destroy,
  sync,
}

-- What a file system promises of files with a mode under which their owner may read them, where a
-- write or a removal returns no error.
pub record IsDisk {Bytes F : Type 0} (fs : FileSystem Bytes F) (mode : ℕ) : Type 0 where
  pub read-write :
      (path : GoString) (b : Bytes) (f : F) (q : GoString)
      → (fs.write path b mode f).1 ≡ false
      → fs.read q mode (fs.write path b mode f).0
        ≡ (if str_eq path q then contents b else fs.read q mode f)
  pub read-remove :
      (path : GoString) (f : F) (q : GoString)
      → (fs.remove path f).1 ≡ false
      → fs.read q mode (fs.remove path f).0 ≡ (if str_eq path q then unopened else fs.read q mode f)

module _ {Bytes F : Type 0} (gob : Gob Bytes) (fs : FileSystem Bytes F) (h : Heap) (p : SyncPayload)
    (db : FileDatabase F) (law : IsDisk fs db.file_mode) (codec : KeepsBasic gob)
    (plain_values : AllBasic p.store.values.entries)
    (works : (if is_destroy p.action
        then fs.remove (sess_path p.session_id db) db.files
        else fs.write (sess_path p.session_id db) (gob.encode h p.store).0 db.file_mode db.files).1
      ≡ false)
    (sid : GoString) (h' : Heap) where
  faithful : IsFaithful gob h p.store
  faithful = codec h p.store plain_values

  -- What the database makes of what it reads.
  abbrev read_back : Contents Bytes → RemoteStore × Heap
  read_back unopened = (zero_remote, h')
  read_back unreadable = (zero_remote, h')
  read_back (contents b) = ((gob.decode h' b).store, (gob.decode h' b).heap)

  written : (sync gob fs h p db) ≡ record db {
    files =
        if is_destroy p.action
        then (fs.remove (sess_path p.session_id db) db.files).0
        else (fs.write
            (sess_path p.session_id db)
            (gob.encode h p.store).0
            db.file_mode
            db.files).0;
  }
  unfolding sync destroy override
  written = elim (Bool-cases (is_destroy p.action)) [ inl e ↦ rw e | inr e ↦ rw e (rw faithful.0) ]
