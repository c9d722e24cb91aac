-- ===== src/Calendar/Store/Tests.antt =====
-- A store that fails to save, saves, and refuses to save again.
use busybar_bridge.Prelude.{◌≡◌, refl, sym, Bool, true, false, List, [], ◌∷◌, Option, none, some}
use busybar_bridge.Prelude.Int.{pos}
use busybar_bridge.Prelude.Result.{ok}
use busybar_bridge.Prelude.Text.{Text, codes}
use busybar_bridge.Calendar.Store.{CalendarBinding, Store, Disk, Calls, new_store, save}
use busybar_bridge.Calendar.Store.Binding.{IsAtomic, save-IsAtomic}
use busybar_bridge.Calendar.Store.Reload.{run, run-bound, new_store-run}

binding_of : Text → CalendarBinding
binding_of email = record {
  email = email;
  access_token = codes "a";
  refresh_token = codes "r";
  token_expiry_unix = pos 5;
  calendar_id = codes "primary";
  linked_at_unix = pos 4;
}

-- A file holds the binding itself.
marshal : CalendarBinding → Option CalendarBinding
marshal b = some b

dir : Text → Text
dir path = codes "/data"

abbrev path : Text
path = codes "/data/binding.pb"

-- All calls succeed, but for `Rename` as given.
calls_with : Bool → Calls CalendarBinding
calls_with rename = record {
  mkdir = true;
  create = true;
  created = binding_of [];
  torn = none;
  sync = true;
  close = true;
  chmod = true;
  rename = rename;
  remove = true;
}

abbrev unbound : Store
unbound = record { path = path; binding = none }

abbrev bound : Store
bound = record { path = path; binding = some (binding_of (codes "ann")) }

abbrev empty_disk : Disk CalendarBinding
empty_disk = record { file = none; temp = none }

abbrev saves : List (Calls CalendarBinding × Option CalendarBinding)
saves =
    (calls_with false, some (binding_of (codes "ann")))
    ∷ (calls_with true, some (binding_of (codes "ann")))
    ∷ (calls_with true, some (binding_of (codes "bob")))
    ∷ []

save-IsAtomic_example :
    IsAtomic marshal dir
      (calls_with false)
      unbound
      empty_disk
      (some (binding_of (codes "ann")))
      (save marshal dir (calls_with false) unbound empty_disk (some (binding_of (codes "ann"))))
save-IsAtomic_example =
    save-IsAtomic marshal dir (calls_with false) unbound empty_disk
      (some (binding_of (codes "ann")))

run-bound_example :
    ((run marshal dir bound empty_disk saves).0 ≡ bound)
    × ((run marshal dir bound empty_disk saves).1.file ≡ none)
run-bound_example = run-bound marshal dir bound empty_disk saves (binding_of (codes "ann")) refl

marshal-marshal : (b bytes : CalendarBinding) → marshal b ≡ some bytes → marshal bytes ≡ some b
unfolding marshal
marshal-marshal b bytes h = sym h

opened : new_store marshal path true empty_disk ≡ ok unbound
unfolding new_store
opened = refl

new_store-run_example :
    new_store marshal path true (run marshal dir unbound empty_disk saves).1
    ≡ ok (run marshal dir unbound empty_disk saves).0
new_store-run_example =
    new_store-run marshal dir marshal path empty_disk unbound saves marshal-marshal opened
