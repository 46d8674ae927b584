-- ===== src/Sessiondb/File.antt =====
-- sessiondb/file/database.go, over a file system that is a parameter. Paths are those of a system
-- whose separator is a slash. What the package logs is not modelled.
pub mod Paths
pub mod Persistence
pub mod Directory
use go_sessions.Base.{
  ℕ, ◌-◌, ◌==◌, GoString, codes, ◌++◌, length, get_elem?, Bool, true, false, Option, none, some,
  List, [], ◌∷◌, if◌then◌else◌,
}
use go_sessions.Value.{Heap}
use go_sessions.Lifetime.{has_expired}
use go_sessions.Database.{Database, RemoteStore, SyncPayload, zero_remote}
use go_sessions.Sessiondb.{
  Decoding, Gob, serialize, decode_remote_store, Backend, dispatch, is_destroy,
}
use Paths.{join}

-- What reading a file gives: it does not open, it does not read to its end, or its contents.
pub data Contents (Bytes : Type 0) : Type 0 where
  unopened unreadable : Contents Bytes
  contents : Bytes → Contents Bytes

-- The calls of `os`, `ioutil` and `filepath.Walk`. The Boolean of a write is its error.
pub record FileSystem (Bytes F : Type 0) : Type 0 where
  pub read : GoString → ℕ → F → Contents Bytes
  pub write : GoString → Bytes → ℕ → F → F × Bool
  pub remove : GoString → F → F × Bool
  pub mkdir_all : GoString → ℕ → F → F × Bool
  pub walk : GoString → F → List (GoString × Bool)

abbrev pub default_file_mode : ℕ
default_file_mode = 0o666

pub record FileDatabase (F : Type 0) : Type 0 where
  pub dir : GoString
  pub file_mode : ℕ
  pub files : F

module _ {F : Type 0} where
  unfoldable pub sess_path : GoString → FileDatabase F → GoString
  sess_path sid db = join db.dir sid

  -- `FileMode`
  unfoldable pub set_file_mode : ℕ → FileDatabase F → FileDatabase F
  set_file_mode mode db = record db { file_mode = mode }

module _ {Bytes F : Type 0} (gob : Gob Bytes) (fs : FileSystem Bytes F) where
  -- `load`: the store, whether there was an error that the caller is told, and the heap.
  unfoldable pub load_file : GoString → Heap → FileDatabase F → Decoding
  load_file path h db = elim (fs.read path db.file_mode db.files) [
    | unopened ↦ record { store = zero_remote; failed = false; heap = h }
    | unreadable ↦ record { store = zero_remote; failed = true; heap = h }
    | contents b ↦ decode_remote_store gob h b
  ]

  unfoldable pub load : GoString → Heap → FileDatabase F → RemoteStore × Heap
  unfolding load_file sess_path
  load sid h db = let d : Decoding = load_file (sess_path sid db) h db in (d.store, d.heap)

  unfoldable pub override : GoString → RemoteStore → Heap → FileDatabase F → FileDatabase F × Bool
  unfolding sess_path
  override sid store h db =
      if (serialize gob h store).1
      then (db, true)
      else (let answer =
            fs.write (sess_path sid db) (serialize gob h store).0 db.file_mode db.files in
          (record db { files = answer.0 }, answer.1))

  -- `destroy` and `expireSess`
  unfoldable pub destroy : GoString → FileDatabase F → FileDatabase F × Bool
  unfolding sess_path
  destroy sid db =
      let answer = fs.remove (sess_path sid db) db.files in
      (record db { files = answer.0 }, answer.1)

  unfoldable pub sync : Heap → SyncPayload → FileDatabase F → FileDatabase F
  unfolding destroy override is_destroy
  sync h p db =
      if is_destroy p.action
      then (destroy p.session_id db).0
      else (override p.session_id p.store h db).0

  -- The visits of `Cleanup`, to the paths as `Walk` lists them.
  unfoldable pub clean : ℕ → Heap → List (GoString × Bool) → FileDatabase F → FileDatabase F
  unfolding load_file
  clean now h [] db = db
  clean now h ((path, is_dir) ∷ m) db =
      let stale = has_expired now (load_file path h db).store.lifetime in
      let rest = clean now h m db in
      let cut = clean now h m (record db { files = (fs.remove path db.files).0 }) in
      if is_dir then rest else if stale then cut else rest

  unfoldable pub cleanup : ℕ → Heap → FileDatabase F → FileDatabase F
  unfolding clean
  cleanup now h db = clean now h (fs.walk db.dir db.files) db

  -- `New`; `none` is the panic on an empty path, and the Boolean the error of `MkdirAll`.
  unfoldable pub new : ℕ → Heap → GoString → ℕ → F → Option (FileDatabase F × Bool)
  unfolding cleanup
  new now h path mode files = elim (get_elem? path (length path - 1)) [
    | none ↦ none
    | some last ↦
        let dir : GoString = if last == b'/' then path else path ++ codes "/" in
        let file_mode : ℕ = if mode == 0 then default_file_mode else mode in
        let made = fs.mkdir_all dir file_mode files in
        let db : FileDatabase F = record { dir = dir; file_mode = file_mode; files = made.0 } in
        some (if made.1 then (db, true) else (cleanup now h db, false))
  ]

  abbrev pub database : Database (Backend (FileDatabase F))
  database = record {
    load = λ now sid h db. let (r, h') = load sid h db.service in (r, db, h');
    sync = λ now h p db. dispatch sync h p db;
  }
