-- ===== src/Scripts/Code.antt =====
-- The integers that the scripts of kernelgym/server/task_manager.py and
-- kernelgym/server/workflow_lifecycle.py return.
pub data Code : Type 0 where
  minus_eight minus_seven minus_six minus_five minus_four minus_three minus_two minus_one : Code
  zero_code one two : Code
