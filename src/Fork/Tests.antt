-- ===== src/Fork/Tests.antt =====
-- A table with the pids 0, 1 and 2.
use hack_linux.Base.{◌==◌, if◌then◌else◌, ◌≡◌, refl, none, some, [], arith}
use hack_linux.Base.Int.{pos}
use hack_linux.Sched.Samples.{worker, three_tasks, small_kernel}
use hack_linux.Mm.{Mm}
use hack_linux.Fork.{pid_used, find_pid, first_empty, find_empty_process}
use hack_linux.Fork.Find.{Chosen, find_empty_process-Chosen}
use hack_linux.Fork.Process.{Files, Processes, nr_open, copy_process}
use hack_linux.Fork.Forked.{references, Forked, copy_process-Forked}

-- The pid wraps to 1, which is used like 2.
wraps : find_empty_process 65 2147483647 three_tasks ≡ some (pos 3, 3)
unfolding find_empty_process find_pid pid_used first_empty
wraps = refl

find_empty_process-Chosen_example :
    Chosen three_tasks 2147483647 (find_empty_process 65 2147483647 three_tasks)
find_empty_process-Chosen_example = find_empty_process-Chosen three_tasks 2147483647 (omega arith)

-- The worker in slot 2 forks; file 5 stands in two of its descriptors.
abbrev worker_files : Files
worker_files = record {
  filp = λ i. if i == 0 then some 5 else if i == 1 then some 5 else none;
  pwd = some 1;
  root = some 1;
  executable = none;
}

abbrev processes : Processes
processes = record {
  kernel = small_kernel 9;
  segments =
      λ i. record { code_base = 0x4000000; data_base = 0x4000000; code_limit = 0; data_limit = 0 };
  files = λ i. worker_files;
  f_count = λ i. 2;
  i_count = λ i. 4;
}

abbrev memory : Mm
memory = record {
  mem_map = λ i. 0;
  word = λ a. 0;
  high_memory = 16777216;
  shared_pages = λ i. record { count = 0; physical_address = 0 };
  brk = 0;
  ldt_base = 0x4000000;
  log = [];
}

counts : references nr_open worker_files.filp 5 ≡ 2
counts = refl

copy_process-Forked_example : Forked 3 3 worker processes memory (copy_process 3 3 processes memory)
copy_process-Forked_example = copy_process-Forked 3 3 worker processes (omega arith) refl memory
