-- ===== src/Tests/Jit.antt =====
-- The block store from empty.
use mr_iss.Base.{◌≡◌, refl, List, [], ◌∷◌}
use mr_iss.Jit.Blockstore.{Blockstore, dummy_block}
use mr_iss.Jit.Blockstore.Laws.{Log, Op, run, log_run, run-Refines}

abbrev no_blocks : Blockstore
no_blocks = record { last = 0; last_block = dummy_block; gencount = 0; hashmap = λ i. [] }

abbrev no_log : Log
no_log = record { blocks = []; used = 0 }

-- Two blocks with one hash and different keys, one that is looked up, and one that is given up and compiled again.
abbrev session : List Op
session =
    Op.compiles 0x100 0x100 0x30 200
    ∷ Op.compiles 0x108 0x108 0x32 300
    ∷ Op.looks 0x100 0x30
    ∷ Op.gives_up 0x10c 0x10c 0x30
    ∷ Op.compiles 0x10c 0x10c 0x30 400
    ∷ Op.looks 0x10c 0x30
    ∷ Op.resets
    ∷ Op.looks 0x100 0x30
    ∷ []

run-Refines_example : run no_blocks session ≡ log_run no_log session
run-Refines_example = run-Refines no_blocks no_log session ((λ i. refl), refl, tt)
