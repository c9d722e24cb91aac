-- ===== src/Calendar/Store/Reload.antt =====
-- Sequences of `Save`, and a restart of the bridge after them.
use busybar_bridge.Prelude.{
  ◌≡◌, ap, ◌∙◌, ◌⊎◌, inl, inr, refl, true, false, List, [], ◌∷◌, Option, none, some, arith,
  Option-cases,
}
use mathlib.Core.Path.{subst}
use busybar_bridge.Prelude.Result.{ok}
use busybar_bridge.Prelude.Text.{Text, is_empty}
use busybar_bridge.Calendar.Store.{CalendarBinding, Store, Disk, Calls, new_store, save}
use busybar_bridge.Calendar.Store.Binding.{save-IsAtomic}

module _ {Bytes : Type 0} (marshal : CalendarBinding → Option Bytes) (dir : Text → Text) where
  pub run : Store → Disk Bytes → List (Calls Bytes × Option CalendarBinding) → Store × Disk Bytes
  run s disk [] = (s, disk)
  run s disk ((calls, new) ∷ rest) =
      let out = save marshal dir calls s disk new in run out.store out.disk rest

  -- Once bound, always bound to the same calendar: whatever is saved later and whatever the system
  -- calls answer, the store stays as it is, and so does its file.
  pub run-bound :
      (s : Store) (disk : Disk Bytes) (saves : List (Calls Bytes × Option CalendarBinding))
      (b : CalendarBinding)
      → s.binding ≡ some b
      → ((run s disk saves).0 ≡ s) × ((run s disk saves).1.file ≡ disk.file)
  unfolding run
  run-bound s disk [] b h = (refl, refl)
  run-bound s disk ((calls, new) ∷ rest) b h =
      let out = save marshal dir calls s disk new in
      elim (save-IsAtomic marshal dir calls s disk new) [
        | inl v ↦ absurd (ground arith)
        | inr v ↦
            let ih = run-bound out.store out.disk rest b (ap (λ x. x.binding) v.store ∙ h) in
            (ih.0 ∙ v.store, ih.1 ∙ v.file)
      ]

  module _ (unmarshal : Bytes → Option CalendarBinding) where
    -- The file has what the store holds.
    abbrev Persisted : Store → Disk Bytes → Type 0
    Persisted s disk =
        ((s.binding ≡ none) × (disk.file ≡ none))
        ⊎ ((b : CalendarBinding) × (bytes : Bytes) × (s.binding ≡ some b)
            × (disk.file ≡ some bytes)
            × (unmarshal bytes ≡ some b))

    new_store-Persisted :
        (path : Text) (disk : Disk Bytes) (s : Store)
        → new_store unmarshal path true disk ≡ ok s
        → Persisted s disk × (s.path ≡ path) × (is_empty path ≡ false)
    unfolding new_store
    new_store-Persisted path disk s e = elim (Option-cases disk.file) [
      | inl f ↦ (inl (ground arith, f), ground arith, ground arith)
      | inr (bytes, f) ↦ elim (Option-cases (unmarshal bytes)) [
        | inl u ↦ absurd (ground arith)
        | inr (b, u) ↦ (inr (b, bytes, ground arith, f, u), ground arith, ground arith)
      ]
    ]

    Persisted-new_store :
        (s : Store) (disk : Disk Bytes)
        → is_empty s.path ≡ false
        → Persisted s disk
        → new_store unmarshal s.path true disk ≡ ok s
    unfolding new_store
    Persisted-new_store s disk h p = ground arith

    step-Persisted :
        (s : Store) (disk : Disk Bytes) (calls : Calls Bytes) (new : Option CalendarBinding)
        → ((b : CalendarBinding) (bytes : Bytes)
            → marshal b ≡ some bytes
            → unmarshal bytes ≡ some b)
        → Persisted s disk
        → let out = save marshal dir calls s disk new in
          Persisted out.store out.disk × (out.store.path ≡ s.path)
    step-Persisted s disk calls new trip p = elim (save-IsAtomic marshal dir calls s disk new) [
      | inl v ↦ (
        inr (
          v.binding,
          v.bytes,
          ap (λ x. x.binding) v.bound,
          ap (λ x. x.file) v.written,
          trip v.binding v.bytes v.encoded,
        ),
        ap (λ x. x.path) v.bound,
      )
      | inr v ↦ elim p [
        | inl (a, f) ↦ (inl (ap (λ x. x.binding) v.store ∙ a, v.file ∙ f), ap (λ x. x.path) v.store)
        | inr (b, bytes, a, f, u) ↦ (
          inr (b, bytes, ap (λ x. x.binding) v.store ∙ a, v.file ∙ f, u),
          ap (λ x. x.path) v.store,
        )
      ]
    ]

    run-Persisted :
        (s : Store) (disk : Disk Bytes) (saves : List (Calls Bytes × Option CalendarBinding))
        → ((b : CalendarBinding) (bytes : Bytes)
            → marshal b ≡ some bytes
            → unmarshal bytes ≡ some b)
        → Persisted s disk
        → Persisted (run s disk saves).0 (run s disk saves).1 × ((run s disk saves).0.path ≡ s.path)
    unfolding run
    run-Persisted s disk [] trip p = (p, refl)
    run-Persisted s disk ((calls, new) ∷ rest) trip p =
        let out = save marshal dir calls s disk new in
        let one = step-Persisted s disk calls new trip p in
        let ih = run-Persisted out.store out.disk rest trip one.0 in (ih.0, ih.1 ∙ one.1)

    -- A restart loses nothing: after a store was opened and any sequence of saves, successful or not,
    -- `NewStore` on the same path opens the same store again, with the same binding or none. What
    -- `proto.Marshal` writes, `proto.Unmarshal` reads back; the file can be read.
    pub new_store-run :
        (path : Text) (disk : Disk Bytes) (s : Store)
        (saves : List (Calls Bytes × Option CalendarBinding))
        → ((b : CalendarBinding) (bytes : Bytes)
            → marshal b ≡ some bytes
            → unmarshal bytes ≡ some b)
        → new_store unmarshal path true disk ≡ ok s
        → new_store unmarshal path true (run s disk saves).1 ≡ ok (run s disk saves).0
    new_store-run path disk s saves trip e =
        let opened = new_store-Persisted path disk s e in
        let p = run-Persisted s disk saves trip opened.0 in
        let same = p.1 ∙ opened.1 in
        subst (λ x. new_store unmarshal x true (run s disk saves).1 ≡ ok (run s disk saves).0) same
          (Persisted-new_store (run s disk saves).0 (run s disk saves).1
            (ap (λ x. is_empty x) same ∙ opened.2) p.0)
