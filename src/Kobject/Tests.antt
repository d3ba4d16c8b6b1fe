-- ===== src/Kobject/Tests.antt =====
-- The handle table on concrete tables.
use crest_rtos.Base.{ℕ, ◌+◌, ◌*◌, ◌≡◌, ◌≢◌, refl, true, false, arith, update}
use crest_rtos.Kobject.{
  kobj_invalid, KobjType, queue_object, sem_object, mutex_object, Table, handle_index, alloc, get,
  free,
}
use crest_rtos.Kobject.Safety.{get-alloc, alloc_full, free_stale}

abbrev empty_table : Table
empty_table = λ _. record { ptr = 0; type_of = queue_object; in_use = false; gen = 0 }

-- Slot 0 is taken.
abbrev one_entry : Table
one_entry = update empty_table 0 (record { ptr = 77; type_of = sem_object; in_use = true; gen = 9 })

abbrev full_table : Table
full_table = λ _. record { ptr = 5; type_of = mutex_object; in_use = true; gen = 1 }

-- The first free slot is 1, and its first generation is 1.
alloc_second : (alloc one_entry 99 queue_object).1 ≡ 1 * 65536 + 1
unfolding alloc
alloc_second = refl

get-alloc_example :
    ((alloc one_entry 99 queue_object).1 ≢ kobj_invalid)
    × (get (alloc one_entry 99 queue_object).0 (alloc one_entry 99 queue_object).1 queue_object
        ≡ 99)
    × ((h : ℕ) (ty' : KobjType)
        → get one_entry h ty' ≢ 0
        → get (alloc one_entry 99 queue_object).0 h ty' ≡ get one_entry h ty')
get-alloc_example = get-alloc one_entry 99 queue_object 1 (omega arith) (omega arith) refl

alloc_full_example : alloc full_table 99 queue_object ≡ (full_table, kobj_invalid)
alloc_full_example = alloc_full full_table 99 queue_object (λ j lt. refl)

free_stale_example :
    (get (free one_entry 0x90000) 0x90000 sem_object ≡ 0)
    × (get (alloc (free one_entry 0x90000) 55 sem_object).0 0x90000 sem_object ≡ 0)
    × ((h' : ℕ)
        → handle_index h' ≢ handle_index 0x90000
        → get (free one_entry 0x90000) h' sem_object ≡ get one_entry h' sem_object)
unfolding get
free_stale_example = free_stale one_entry 0x90000 55 sem_object sem_object sem_object (omega arith)
