-- ===== src/Calendar/Store/Binding.antt =====
-- What one `Save`, and any sequence of them, does to the binding and to the file.
use busybar_bridge.Prelude.{
  ◌≡◌, ◌⊎◌, inl, inr, refl, true, false, not, ◌&&◌, if-both, if-cases, Bool-cases, Option, none,
  some, arith,
}
use busybar_bridge.Prelude.Text.{Text}
use busybar_bridge.Calendar.Store.{
  CalendarBinding, Store, StoreError, nil_binding, already_bound, marshal_failed, mkdir_failed,
  create_failed, write_failed, sync_failed, close_failed, chmod_failed, rename_failed, Disk, Calls,
  Saved, failed, cleanup, write_temp, save_encoded, save, is_bound, has_dir,
}

unbound_lem : (s : Store) → is_bound s ≡ false → s.binding ≡ none
unfolding is_bound
unbound_lem s e = ground arith

module _ {Bytes : Type 0} where
  -- A `Save` that succeeds: it bound an unbound store, and wrote the encoded binding.
  pub record Succeeds (marshal : CalendarBinding → Option Bytes) (s : Store)
      (new : Option CalendarBinding) (out : Saved Bytes) : Type 0 where
    pub binding : CalendarBinding
    pub bytes : Bytes
    pub given : new ≡ some binding
    pub unbound : s.binding ≡ none
    pub encoded : marshal binding ≡ some bytes
    pub no_error : out.error ≡ none
    pub bound : out.store ≡ record s { binding = some binding }
    pub written : out.disk ≡ record { file = some bytes; temp = none }

  -- One that fails: it left the store and its file as they were, and no temporary file if that could
  -- be removed.
  pub record Fails (calls : Calls Bytes) (s : Store) (disk : Disk Bytes) (out : Saved Bytes)
      : Type 0 where
    pub error : StoreError
    pub reported : out.error ≡ some error
    pub store : out.store ≡ s
    pub file : out.disk.file ≡ disk.file
    pub clean : calls.remove ≡ true → disk.temp ≡ none → out.disk.temp ≡ none

  failed-Fails :
      (calls : Calls Bytes) (s : Store) (disk : Disk Bytes) (e : StoreError)
      → Fails calls s disk (failed s disk e)
  unfolding failed
  failed-Fails calls s disk e = record {
    error = e;
    reported = refl;
    store = refl;
    file = refl;
    clean = λ r h. h;
  }

  cleanup-Fails :
      (calls : Calls Bytes) (s : Store) (disk : Disk Bytes) (temp : Option Bytes) (e : StoreError)
      → Fails calls s disk (cleanup calls s (record disk { temp = temp }) e)
  unfolding cleanup failed
  cleanup-Fails calls s disk temp e = elim (Bool-cases calls.remove) [
    | inl h ↦
        rw (h, cleanup)
          (record { error = e; reported = refl; store = refl; file = refl; clean = λ r k. refl })
    | inr h ↦
        rw (h, cleanup)
          (record {
            error = e;
            reported = refl;
            store = refl;
            file = refl;
            clean = λ r k. absurd (ground arith);
          })
  ]

  module _ (marshal : CalendarBinding → Option Bytes) (dir : Text → Text) where
    abbrev pub IsAtomic :
        Calls Bytes → Store → Disk Bytes → Option CalendarBinding → Saved Bytes → Type 0
    IsAtomic calls s disk new out = Succeeds marshal s new out ⊎ Fails calls s disk out

    write_temp-IsAtomic :
        (calls : Calls Bytes) (s : Store) (disk : Disk Bytes) (temp torn : Option Bytes)
        (b : CalendarBinding) (bytes : Bytes)
        → s.binding ≡ none
        → marshal b ≡ some bytes
        → IsAtomic calls s disk
            (some b)
            (write_temp calls s (record disk { temp = temp }) b bytes torn)
    unfolding write_temp
    write_temp-IsAtomic calls s disk temp (some left) b bytes u m =
        inr (cleanup-Fails calls s disk (some left) write_failed)
    write_temp-IsAtomic calls s disk temp none b bytes u m =
        (if-both (IsAtomic calls s disk (some b)) (not calls.sync) _ _
          (inr (cleanup-Fails calls s disk (some bytes) sync_failed))
          (if-both (IsAtomic calls s disk (some b)) (not calls.close) _ _
            (inr (cleanup-Fails calls s disk (some bytes) close_failed))
            (if-both (IsAtomic calls s disk (some b)) (not calls.chmod) _ _
              (inr (cleanup-Fails calls s disk (some bytes) chmod_failed))
              (if-both (IsAtomic calls s disk (some b)) (not calls.rename) _ _
                (inr (cleanup-Fails calls s disk (some bytes) rename_failed))
                (inl (record {
                  binding = b;
                  bytes = bytes;
                  given = refl;
                  unbound = u;
                  encoded = m;
                  no_error = refl;
                  bound = refl;
                  written = refl;
                }))))))

    save_encoded-IsAtomic :
        (calls : Calls Bytes) (s : Store) (disk : Disk Bytes) (b : CalendarBinding)
        (encoded : Option Bytes)
        → s.binding ≡ none
        → marshal b ≡ encoded
        → IsAtomic calls s disk (some b) (save_encoded marshal dir calls s disk b encoded)
    unfolding save_encoded
    save_encoded-IsAtomic calls s disk b none u m = inr (failed-Fails calls s disk marshal_failed)
    save_encoded-IsAtomic calls s disk b (some bytes) u m =
        if-both (IsAtomic calls s disk (some b)) (has_dir marshal dir s.path && not calls.mkdir) _ _
          (inr (failed-Fails calls s disk mkdir_failed))
          (if-both (IsAtomic calls s disk (some b)) (not calls.create) _ _
            (inr (failed-Fails calls s disk create_failed))
            (write_temp-IsAtomic calls s disk (some calls.created) calls.torn b bytes u m))

    -- `Save` is atomic on every branch, whatever the system calls answer. Either it succeeds: the store
    -- was unbound and has the given binding now, the file has its encoding, and no temporary file is
    -- left. Or it reports an error: the store and its file are as before, and no temporary file is left
    -- unless it could not be removed. A store that is bound is never written.
    pub save-IsAtomic :
        (calls : Calls Bytes) (s : Store) (disk : Disk Bytes) (new : Option CalendarBinding)
        → IsAtomic calls s disk new (save marshal dir calls s disk new)
    unfolding save
    save-IsAtomic calls s disk none = inr (failed-Fails calls s disk nil_binding)
    save-IsAtomic calls s disk (some b) =
        if-cases (IsAtomic calls s disk (some b)) (is_bound s) _ _
          (λ e. inr (failed-Fails calls s disk already_bound))
          (λ e. save_encoded-IsAtomic calls s disk b (marshal b) (unbound_lem s e) refl)
