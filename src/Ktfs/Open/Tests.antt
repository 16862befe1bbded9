-- ===== src/Ktfs/Open/Tests.antt =====
-- Runs of opening and closing files of sys/ktfs.c.
use model_lib.Base.{◌≡◌, refl, false, some, List, [], ◌∷◌, map, arith}
use model_lib.Ktfs.Dir.{einval}
use model_lib.Ktfs.Dir.Tests.{sb, disk}
use model_lib.Ktfs.Open.{Opened, Lists, ktfs_open, ktfs_listing_read}
use model_lib.Ktfs.Open.Names.{Distinct, Step, opens, closes, run, run-Distinct}

abbrev start : Lists
start = record { opened_files = []; opened_listings = [] }

abbrev steps : List Step
steps =
    opens disk false 8 (97 ∷ [])
    ∷ opens disk false 16 (98 ∷ [])
    ∷ opens disk false 24 (97 ∷ [])
    ∷ closes 16
    ∷ []

run-two : map (λ (f : Opened). f.addr) (run sb start steps).opened_files ≡ 8 ∷ []
unfolding run
run-two = refl

ktfs_open-again : (ktfs_open sb disk (run sb start steps) false 32 (97 ∷ [])).1 ≡ einval
unfolding run ktfs_open
ktfs_open-again = refl

-- A listing reads the names in order.
ktfs_listing_read-first :
    (ktfs_listing_read sb disk (ktfs_open sb disk start false 8 []).0 false 8).1
    ≡ some (97 ∷ 0 ∷ [])
unfolding ktfs_listing_read ktfs_open
ktfs_listing_read-first = refl

run-Distinct_example : Distinct (run sb start steps).opened_files
run-Distinct_example =
    run-Distinct sb start steps (omega arith, (omega arith, (omega arith, (tt, tt)))) tt
