-- ===== src/Peripherals/Steps.antt =====
-- Sequences of requests to the service of peripherals (internal/peripheral/service.go).
use fishhub_server.Prelude.{String, ◌≡◌, sym}
use mathlib.Core.Path.{subst}
use fishhub_server.Schema.{Schedule}
use fishhub_server.World.{World}
use fishhub_server.Peripherals.Create.{NewPeripheral}
use fishhub_server.Peripherals.{register, set_schedule, control_mode, update, delete}
use fishhub_server.Peripherals.Keeping.{
  Safe, register-Safe, set_schedule-Safe, control_mode-Safe, update-Safe, delete-Safe,
}
use fishhub_server.Peripherals.Apart.{Apart}

-- One request to the service, or anything else that happens to the world and leaves the table of
-- peripherals alone.
pub data Step : World → World → Type 0 where
  registers :
      (text : String → String) (u : String) (n : NewPeripheral) (w : World)
      → Step w (register text u n w).1
  schedules :
      (text : Schedule → String) (d u id : String) (s : Schedule) (w : World)
      → Step w (set_schedule text d u id s w).1
  changes_mode : (d u id mode : String) (w : World) → Step w (control_mode d u id mode w).1
  renames :
      (text : String → String) (d u id name : String) (w : World)
      → Step w (update text d u id name w).1
  deletes : (d u id : String) (w : World) → Step w (delete d u id w).1
  elsewhere : (w w' : World) → w'.db.peripherals ≡ w.db.peripherals → Step w w'

pub data Steps (w : World) : World → Type 0 where
  here : Steps w w
  next : {v v' : World} → Steps w v → Step v v' → Steps w v'

Step-Apart : {w w' : World} → Step w w' → Safe w.db → Safe w'.db
Step-Apart (registers text u n w) h = register-Safe text u n w h
Step-Apart (schedules text d u id s w) h = set_schedule-Safe text d u id s w h
Step-Apart (changes_mode d u id mode w) h = control_mode-Safe d u id mode w h
Step-Apart (renames text d u id name w) h = update-Safe text d u id name w h
Step-Apart (deletes d u id w) h = delete-Safe d u id w h
Step-Apart (elsewhere w w' same) h = subst Apart (sym same) h

-- From a table in which no two peripherals have one id and no two active ones have one name or one
-- pin on one device, or one port, any sequence of registrations, schedules, changes of mode,
-- renamings, deletions and failures leads to such a table.
pub Steps-Apart : {w w' : World} → Safe w.db → Steps w w' → Safe w'.db
Steps-Apart h here = h
Steps-Apart h (next steps step) = Step-Apart step (Steps-Apart h steps)
