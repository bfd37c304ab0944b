-- ===== src/ProcModules/Lifecycle.antt =====
-- Loading and unloading the modules.
use so2_202003745_vd.Base.{◌≡◌, ◌≢◌, ◌⊎◌, Bool, true, false, pos, neg, enomem, arith}
use so2_202003745_vd.ProcModules.{
  Name, Proc, luis_mem_info, luis_mem_process, same_name, init, exit,
}

-- Loading one of the three modules that report on CPU, disk and memory returns 0 exactly when its
-- file was created; if it fails, no file has changed.
pub init_checked :
    (name : Name) (created : Bool) (proc : Proc)
    → (name ≢ luis_mem_info)
    → (name ≢ luis_mem_process)
    → (((init name created proc).0 ≡ pos 0)
        × (created ≡ true)
        × ((init name created proc).1 name ≡ true))
      ⊎ (((init name created proc).0 ≡ neg enomem) × ((init name created proc).1 ≡ proc))
unfolding init same_name
init_checked name created proc a b = ground arith

-- The two modules on the memory of processes load with success even if their file was not created.
pub init_unchecked :
    (name : Name) (proc : Proc)
    → (name ≡ luis_mem_info) ⊎ (name ≡ luis_mem_process)
    → init name false proc ≡ (pos 0, proc)
unfolding init same_name
init_unchecked name proc which = ground arith

-- Unloading a module that was loaded where its file was not there leaves every file as it was
-- before, whether or not the file could be created.
pub exit-init :
    (name : Name) (created : Bool) (proc : Proc) (other : Name)
    → proc name ≡ false
    → exit name (init name created proc).1 other ≡ proc other
unfolding exit init same_name
exit-init name created proc other absent = ground arith
