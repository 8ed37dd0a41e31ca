-- ===== src/A2/Pcb.antt =====
-- a2/pcb.h and pcb.c: the process control block. The script's copy in the backing store, which `fp`
-- reads, is given by its bytes.
use comp310_winter.Base.{ℕ, ◌+◌, List, Bool, false, Text}

pub record Pcb : Type 0 where
  pub priority : Bool
  pub pid : ℕ
  pub pc : ℕ
  pub page_count : ℕ
  pub offset_end : ℕ
  pub page_table : List ℕ
  pub offset : ℕ
  pub valid_page : List Bool
  pub job_length_score : ℕ
  pub filename : Text
  pub fp : Text

-- `pid_counter++`: the old value is returned, beside the new counter.
unfoldable pub generate_pid : ℕ → ℕ × ℕ
generate_pid counter = (counter, counter + 1)

-- `makePCB`: `score` is what `malloc` left in `job_length_score`, which no code sets.
unfoldable pub make_pcb : ℕ → ℕ → ℕ → ℕ → List ℕ → List Bool → Text → Text → Pcb × ℕ
unfolding generate_pid
make_pcb counter score page_count offset_end table valid name fp =
    let (pid, counter') = generate_pid counter in
    (
      record {
        priority = false;
        pid = pid;
        pc = 0;
        page_count = page_count;
        offset_end = offset_end;
        page_table = table;
        offset = 0;
        valid_page = valid;
        job_length_score = score;
        filename = name;
        fp = fp;
      },
      counter',
    )
