-- ===== src/Calendar/Store.antt =====
-- internal/calendar/store.go: the binding of a Google calendar, kept in memory and in a file.
-- A method that locks the mutex is one atomic step. `proto.Marshal`, `proto.Unmarshal` and
-- `filepath.Dir` are arguments; `proto.Clone` copies a value, which needs no copy here. The disk is
-- the file at the store's path and the temporary file of the running `Save`, if they exist.
pub mod Binding
pub mod Reload
mod Tests
use busybar_bridge.Prelude.{Bool, true, false, not, ◌&&◌, Option, none, some, if◌then◌else◌}
use busybar_bridge.Prelude.Int.{ℤ}
use busybar_bridge.Prelude.Result.{Result, ok, err}
use busybar_bridge.Prelude.Text.{Text, codes, is_empty, text_eq}

pub record CalendarBinding : Type 0 where
  pub email : Text
  pub access_token : Text
  pub refresh_token : Text
  pub token_expiry_unix : ℤ
  pub calendar_id : Text
  pub linked_at_unix : ℤ

pub record Store : Type 0 where
  pub path : Text
  pub binding : Option CalendarBinding

pub data StoreError : Type 0 where
  empty_path read_failed unmarshal_failed nil_binding already_bound marshal_failed : StoreError
  mkdir_failed create_failed write_failed sync_failed close_failed chmod_failed : StoreError
  rename_failed : StoreError

pub record Disk (Bytes : Type 0) : Type 0 where
  pub file : Option Bytes
  pub temp : Option Bytes

-- What the system calls of one `Save` answer: whether they succeed, and for a failed write what it
-- left in the file.
pub record Calls (Bytes : Type 0) : Type 0 where
  pub mkdir : Bool
  pub create : Bool
  pub created : Bytes
  pub torn : Option Bytes
  pub sync : Bool
  pub close : Bool
  pub chmod : Bool
  pub rename : Bool
  pub remove : Bool

unfoldable pub is_bound : Store → Bool
is_bound s = elim s.binding [ none ↦ false | some b ↦ true ]

-- `nil, false` is `none`.
unfoldable pub get : Store → Option CalendarBinding
get s = s.binding

-- The store, the disk and the error.
pub record Saved (Bytes : Type 0) : Type 0 where
  pub store : Store
  pub disk : Disk Bytes
  pub error : Option StoreError

module _ {Bytes : Type 0} where
  -- NewStore; `readable` says whether a file that exists can be read.
  unfoldable pub new_store :
      (Bytes → Option CalendarBinding) → Text → Bool → Disk Bytes → Result StoreError Store
  new_store unmarshal path readable disk =
      if is_empty path then err empty_path else elim disk.file [
        | none ↦ ok (record { path = path; binding = none })
        | some bytes ↦
            if readable
            then elim (unmarshal bytes) [
              | none ↦ err unmarshal_failed
              | some b ↦ ok (record { path = path; binding = some b })
            ]
            else err read_failed
      ]

  failed : Store → Disk Bytes → StoreError → Saved Bytes
  failed s disk e = record { store = s; disk = disk; error = some e }

  -- A failure after the temporary file was made: the deferred `os.Remove`, its error ignored.
  cleanup : Calls Bytes → Store → Disk Bytes → StoreError → Saved Bytes
  unfolding failed
  cleanup calls s disk e =
      if calls.remove then failed s (record disk { temp = none }) e else failed s disk e

  -- Write, Sync, Close, Chmod and Rename; the last argument is what a failed write left.
  write_temp :
      Calls Bytes → Store → Disk Bytes → CalendarBinding → Bytes → Option Bytes → Saved Bytes
  unfolding cleanup
  write_temp calls s disk b bytes (some left) =
      cleanup calls s (record disk { temp = some left }) write_failed
  write_temp calls s disk b bytes none =
      let written = record disk { temp = some bytes } in
      if not calls.sync
      then cleanup calls s written sync_failed
      else if not calls.close
      then cleanup calls s written close_failed
      else if not calls.chmod
      then cleanup calls s written chmod_failed
      else if not calls.rename
      then cleanup calls s written rename_failed
      else record {
        store = record s { binding = some b };
        disk = record { file = some bytes; temp = none };
        error = none;
      }

  module _ (marshal : CalendarBinding → Option Bytes) (dir : Text → Text) where
    -- `dir != "" && dir != "."`
    has_dir : Text → Bool
    unfolding text_eq
    has_dir path = not (is_empty (dir path)) && not (text_eq (dir path) (codes "."))

    -- With the result of `proto.Marshal`.
    save_encoded : Calls Bytes → Store → Disk Bytes → CalendarBinding → Option Bytes → Saved Bytes
    unfolding write_temp failed has_dir
    save_encoded calls s disk b none = failed s disk marshal_failed
    save_encoded calls s disk b (some bytes) =
        if has_dir s.path && not calls.mkdir
        then failed s disk mkdir_failed
        else if not calls.create
        then failed s disk create_failed
        else write_temp calls s (record disk { temp = some calls.created }) b bytes calls.torn

    unfoldable pub save : Calls Bytes → Store → Disk Bytes → Option CalendarBinding → Saved Bytes
    unfolding save_encoded is_bound
    save calls s disk none = failed s disk nil_binding
    save calls s disk (some b) =
        if is_bound s then failed s disk already_bound else save_encoded calls s disk b (marshal b)
