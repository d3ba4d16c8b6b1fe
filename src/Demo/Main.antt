-- ===== src/Demo/Main.antt =====
-- src/main.c, main: the tasks that it creates, and the start of the first one.
use crest_rtos.Base.{ℕ, Option, some, List, [], ◌∷◌, Ptr, ◌>>=◌}
use crest_rtos.Console.{codes}
use crest_rtos.Task.{Machine, task_init, task_create}
use crest_rtos.Port.{start_first_task}

-- A call of task_create, with the address of the task's function.
pub record NewTask : Type 0 where
  pub task_fn : ℕ
  pub name : List ℕ
  pub priority : ℕ
  pub size : ℕ

-- The addresses of the five functions.
pub record Functions : Type 0 where
  pub kernel_task_fn : ℕ
  pub task_producer : ℕ
  pub task_consumer : ℕ
  pub task_mpu_probe : ℕ
  pub idle_task : ℕ

-- The calls of task_create in main.
abbrev pub main_tasks : Functions → List NewTask
main_tasks f =
    record { task_fn = f.kernel_task_fn; name = codes "KernelWorker"; priority = 0; size = 512 }
    ∷ record { task_fn = f.task_producer; name = codes "Producer"; priority = 1; size = 512 }
    ∷ record { task_fn = f.task_consumer; name = codes "Consumer"; priority = 2; size = 512 }
    ∷ record { task_fn = f.task_mpu_probe; name = codes "MpuProbe"; priority = 3; size = 512 }
    ∷ record { task_fn = f.idle_task; name = codes "Idle"; priority = 7; size = 512 }
    ∷ []

-- One call of task_create after the other, each with a NULL argument.
unfoldable pub create_all : List NewTask → Machine → Option Machine
unfolding task_create
create_all [] s = some s
create_all (t ∷ ts) s = do
  s' ← task_create s t.task_fn (some t.name) t.priority t.size 0
  create_all ts s'

-- main, less the set-up and the texts of the UART: the machine at the start of the first task, and
-- that task; `none` for a task is the endless loop of port_start_first_task.
unfoldable pub main : Functions → Machine → Option (Machine × Ptr)
unfolding task_init create_all start_first_task
main f s = do
  s' ← create_all (main_tasks f) (record s { kernel = task_init s.kernel })
  (k, first) ← start_first_task s'.kernel
  some (record s' { kernel = k }, first)
